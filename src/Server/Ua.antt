-- ===== src/Server/Ua.antt =====
-- The server of open62541 that class Server drives, and what the class hands to it.
use modern_opc.Base.{ℕ, ℤ, Bool, Option, List}
use modern_opc.Types.NodeId.{UaNodeId}
use modern_opc.Types.UaText.{UaText, UaQualifiedName}
use modern_opc.Variant.{UaVariant}
use modern_opc.Server.Status.{UaStatusCode, UaNodeClass}

-- The arguments that the UA_Server_add…Node functions share.
pub record NewNode : Type 0 where
  pub requested : UaNodeId
  pub parent : UaNodeId
  pub reference : UaNodeId
  pub browse_name : UaQualifiedName

-- UA_Argument: the type of an argument and its value rank.
pub record UaArgument : Type 0 where
  pub data_type : UaNodeId
  pub value_rank : ℤ

-- UA_VariableAttributes, as far as the repository sets them.
pub record UaVariableAttributes : Type 0 where
  pub access_level : ℕ
  pub data_type : UaNodeId
  pub value_rank : ℤ
  pub array_dimensions : List ℕ
  pub value : UaVariant

-- UA_RelativePathElement
pub record UaPathElement : Type 0 where
  pub reference_type : UaNodeId
  pub is_inverse : Bool
  pub include_subtypes : Bool
  pub target_name : UaQualifiedName

-- UA_BrowsePathResult
pub record UaBrowsePathResult : Type 0 where
  pub status_code : UaStatusCode
  pub targets : List UaNodeId

-- Node ids of namespace 0 that open62541 names.
pub record Ns0 : Type 0 where
  pub has_component : UaNodeId
  pub hierarchical_references : UaNodeId
  pub server_namespace_array : UaNodeId

-- UA_Server over its state. A node's context is an address, or none.
pub record UaServer (S : Type 0) : Type 0 where
  pub names : Ns0
  pub text : UaText
  pub add_object_node : S → NewNode → UaNodeId → UaStatusCode × S
  pub add_method_node : S → NewNode → List UaArgument → List UaArgument → UaStatusCode × S
  pub add_variable_node : S → NewNode → UaNodeId → UaVariableAttributes → UaStatusCode × S
  pub read_node_class : S → UaNodeId → UaStatusCode × UaNodeClass
  pub set_node_context : S → UaNodeId → Option ℕ → S
  pub set_data_source : S → UaNodeId → S
  pub set_method_callback : S → UaNodeId → S
  pub read_value : S → UaNodeId → UaStatusCode × UaVariant
  pub write_value : S → UaNodeId → UaVariant → UaStatusCode × S
  pub translate_browse_path : S → UaNodeId → List UaPathElement → UaBrowsePathResult
