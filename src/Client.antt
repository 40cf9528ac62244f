-- ===== src/Client.antt =====
-- class Client (modernopc/include/modernopc/client/Client.h, modernopc/src/client) over a UA_Client
-- of open62541, which is a parameter. A call that throws keeps what it changed before.
pub mod Stoi
pub mod Laws
pub mod Bounds
pub mod Nodesets
pub mod Unresolved
pub mod Outputs
pub mod Logging
pub mod Tests
use modern_opc.Base.{
  ℕ, zero, suc, ◌+◌, ◌%◌, ◌^◌, Bool, true, false, if◌then◌else◌, ◌==◌, Bytes, text, bytes_eq, leb,
  length, Outcome, ok, throws, faults, opc_exception, out_of_range, null_dereference, bad_access,
  ◌>>=◌, List, [], ◌∷◌, ◌++◌, map, Option, none, some, drop,
}
use modern_opc.Types.NodeId.{
  NodeId, UaNodeId, numeric_node_id, string_node_id, from_node_id, from_ua_node_id,
}
use modern_opc.Types.UaText.{UaText, UaQualifiedName}
use modern_opc.Types.Names.{QualifiedName, from_ua_qualified_name}
use modern_opc.Variant.{Value, string_value, UaVariant, all_values}
use modern_opc.Server.Status.{UaStatusCode, UaNodeClass, NodeType, is_good, get_node_type}
use modern_opc.Client.Stoi.{stoi}

-- UA_ReferenceDescription, as far as it is read
pub record UaReference : Type 0 where
  pub node_id : UaNodeId
  pub browse_name : UaQualifiedName
  pub node_class : UaNodeClass

-- UA_BrowseResponse: the status, and the references of each result
pub record UaBrowseResponse : Type 0 where
  pub service_result : UaStatusCode
  pub results : List (List UaReference)

-- UA_DataType, as far as the class looks at it. The address stands for the rest.
pub record UaDataType : Type 0 where
  pub address : ℕ
  pub type_id : UaNodeId
  pub binary_encoding_id : UaNodeId

-- UA_Client over its state. The browse call gets the node to start at and the reference type; it
-- asks for all fields and includes the subtypes.
pub record UaClient (C : Type 0) : Type 0 where
  pub text : UaText
  pub server_namespace_array : UaNodeId
  pub hierarchical_references : UaNodeId
  pub connect : C → Bytes → UaStatusCode × C
  pub disconnect : C → C
  pub read_value_attribute : C → UaNodeId → UaStatusCode × UaVariant
  pub write_value_attribute : C → UaNodeId → UaVariant → UaStatusCode × C
  pub call : C → UaNodeId → UaNodeId → List UaVariant → UaStatusCode × List UaVariant × C
  pub browse : C → UaNodeId → UaNodeId → UaBrowseResponse
  pub node_id_equal : UaNodeId → UaNodeId → Bool
  pub custom_data_types : C → List (List UaDataType)

pub data ConnectionState : Type 0 where
  disconnected connected : ConnectionState

-- A callback is known by the address of its function.
pub record Client (C : Type 0) : Type 0 where
  pub ua : C
  pub uri : Bytes
  pub callbacks : List ℕ
  pub conn_state : ConnectionState
  pub namespaces : List Bytes

pub record UnresolvedNodeId : Type 0 where
  pub namespace_uri : Bytes
  pub identifier : Bytes

pub record BrowseResult : Type 0 where
  pub id : NodeId
  pub name : QualifiedName
  pub type : NodeType

-- A call's outcome, and the client after it, also when it throws
abbrev pub Called : Type 0 → Type 0 → Type 0
Called C A = Outcome A × Client C

-- The loop over the namespace array that `connect` has read.
unfoldable pub read_namespaces : List Value → Outcome (List Bytes)
read_namespaces [] = ok []
read_namespaces (string_value s ∷ vs) = do rest ← read_namespaces vs; ok (s ∷ rest)
read_namespaces (v ∷ vs) = faults bad_access

-- The loop of resolveNamespaceUri.
unfoldable pub find_uri : Bytes → ℕ → List Bytes → Outcome ℕ
find_uri uri idx [] = throws (opc_exception (text "namespaceUri of nodeId not found"))
find_uri uri idx (ns ∷ nss) = if bytes_eq uri ns then ok idx else find_uri uri (suc idx) nss

-- std::string::substr(pos)
unfoldable pub substr : Bytes → ℕ → Outcome Bytes
substr s n = if leb n (length s) then ok (drop n s) else throws out_of_range

-- identifier[0], which is NUL for an empty std::string
abbrev pub first_char : Bytes → ℕ
first_char [] = 0
first_char (c ∷ s) = c

-- The loop over the types of one UA_DataTypeArray, and over the arrays.
unfoldable pub find_in_array :
    (UaNodeId → UaNodeId → Bool) → UaNodeId → List UaDataType → Option UaDataType
find_in_array equal id [] = none
find_in_array equal id (t ∷ ts) = if equal t.type_id id then some t else find_in_array equal id ts

unfoldable pub find_in_arrays :
    (UaNodeId → UaNodeId → Bool) → UaNodeId → List (List UaDataType) → Option UaDataType
unfolding find_in_array
find_in_arrays equal id [] = none
find_in_arrays equal id (a ∷ as_) = elim (find_in_array equal id a) [
  | some t ↦ some t
  | none ↦ find_in_arrays equal id as_
]

unfoldable pub browse_result : UaReference → BrowseResult
unfolding from_ua_node_id from_ua_qualified_name get_node_type
browse_result r = record {
  id = from_ua_node_id r.node_id;
  name = from_ua_qualified_name r.browse_name;
  type = get_node_type r.node_class;
}

abbrev pub concat : {A : Type 0} → List (List A) → List A
concat [] = []
concat (xs ∷ xss) = xs ++ concat xss

-- UA_Client_new, UA_ClientConfig_setDefault, the assignment to the logger of the configuration, and
-- UA_Client_delete, which gives what is left.
pub record UaClientLife (C : Type 0) : Type 0 where
  pub new_client : C
  pub set_default : C → C
  pub set_logger : C → ℕ → C
  pub delete_client : C → C

-- Client::Client, given the logger of spdlog under the name `Client`
unfoldable pub construct_client : {C : Type 0} → UaClientLife C → ℕ → Bytes → Client C
construct_client L spdlogger endpoint_uri = record {
  ua = L.set_logger (L.set_default L.new_client) spdlogger;
  uri = endpoint_uri;
  callbacks = [];
  conn_state = disconnected;
  namespaces = [];
}

-- Client::getConnectionState
unfoldable pub get_connection_state : {C : Type 0} → Client C → ConnectionState
get_connection_state c = c.conn_state

module _ {C : Type 0} (U : UaClient C) where
  -- Client::connect
  unfoldable pub connect : Client C → Called C (Unit {0})
  unfolding read_namespaces
  connect c =
      let (status, ua) = U.connect c.ua c.uri in
      let (read, var) = U.read_value_attribute ua U.server_namespace_array in
      if is_good status
      then if is_good read
        then elim (read_namespaces (all_values var)) [
          | ok names ↦ (
            ok tt,
            record c { ua = ua; namespaces = c.namespaces ++ names; conn_state = connected },
          )
          | throws e ↦ (throws e, record c { ua = ua })
          | faults f ↦ (faults f, record c { ua = ua })
        ]
        else (throws (opc_exception (text "could not read namespace array")), record c { ua = ua })
      else (throws (opc_exception (text "could not connect")), record c { ua = ua })

  -- Client::disconnect
  unfoldable pub disconnect : Client C → Client C
  disconnect c = record c { ua = U.disconnect c.ua }

  -- Client::~Client
  unfoldable pub destroy_client : UaClientLife C → Client C → C
  unfolding disconnect
  destroy_client L c = L.delete_client (disconnect c).ua

  -- Client::registerConnectionCallback
  unfoldable pub register_connection_callback : ℕ → Client C → Client C
  register_connection_callback fn c = record c { callbacks = c.callbacks ++ (fn ∷ []) }

  -- Client::notifyConnectionState: the calls that it makes, in order
  unfoldable pub notify_connection_state : ConnectionState → Client C → List (ℕ × ConnectionState)
  notify_connection_state state c = map (λ cb. (cb, state)) c.callbacks

  -- Client::resolveNamespaceUri
  unfoldable pub resolve_namespace_uri : Bytes → Client C → Outcome ℕ
  unfolding find_uri
  resolve_namespace_uri uri c = find_uri uri 0 c.namespaces

  -- Client::resolve
  unfoldable pub resolve : UnresolvedNodeId → Client C → Outcome NodeId
  unfolding resolve_namespace_uri substr stoi
  resolve id c = do
    n ← resolve_namespace_uri id.namespace_uri c
    let idx = n % 2 ^ 16
    if first_char id.identifier == b'i'
        then substr id.identifier 2 >>= (λ s. stoi s >>= (λ z. ok (numeric_node_id idx z)))
        else if first_char id.identifier == b's'
        then substr id.identifier 2 >>= (λ s. ok (string_node_id idx s))
        else throws (opc_exception (text "could not parse nodeId"))

  -- Client::read
  unfoldable pub read : NodeId → Client C → Outcome UaVariant
  read id c = do
    ua_id ← from_node_id U.text id
    let (status, v) = U.read_value_attribute c.ua ua_id
    if is_good status then ok v else throws (opc_exception (text "Error on readValueAttribute"))

  -- Client::write
  unfoldable pub write : NodeId → UaVariant → Client C → Called C (Unit {0})
  write id v c = elim (from_node_id U.text id) [
    | throws e ↦ (throws e, c)
    | faults f ↦ (faults f, c)
    | ok ua_id ↦
        let (status, ua) = U.write_value_attribute c.ua ua_id v in
        if is_good status
        then (ok tt, record c { ua = ua })
        else (throws (opc_exception (text "Error on writeValueAttribute")), record c { ua = ua })
  ]

  -- fromNodeId of the object's id and of the method's id
  unfoldable pub two_node_ids : NodeId → NodeId → Outcome (UaNodeId × UaNodeId)
  two_node_ids obj method = do
    o ← from_node_id U.text obj
    m ← from_node_id U.text method
    ok (o, m)

  -- Client::call
  unfoldable pub call_method :
      NodeId → NodeId → List UaVariant → Client C → Called C (List UaVariant)
  unfolding two_node_ids
  call_method obj method inputs c = elim (two_node_ids obj method) [
    | throws e ↦ (throws e, c)
    | faults f ↦ (faults f, c)
    | ok ids ↦
        let (status, outputs, ua) = U.call c.ua ids.0 ids.1 inputs in
        if is_good status
        then (ok outputs, record c { ua = ua })
        else (throws (opc_exception (text "error on call")), record c { ua = ua })
  ]

  -- Client::browse
  unfoldable pub browse : NodeId → Client C → Outcome (List BrowseResult)
  unfolding browse_result
  browse id c = do
    start ← from_node_id U.text id
    let resp = U.browse c.ua start U.hierarchical_references
    if is_good resp.service_result
        then ok (map browse_result (concat resp.results))
        else throws (opc_exception (text "error on browse"))

  -- Client::findCustomDataType
  unfoldable pub find_custom_data_type : UaNodeId → Client C → Option UaDataType
  unfolding find_in_arrays
  find_custom_data_type id c = find_in_arrays U.node_id_equal id (U.custom_data_types c.ua)
