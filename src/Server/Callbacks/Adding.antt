-- ===== src/Server/Callbacks/Adding.antt =====
-- ObjectNode::addMethod (modernopc/include/modernopc/nodes/ObjectNode.h) and the calls of the method by
-- open62541 afterwards.
use modern_opc.Base.{some}
use modern_opc.Types.NodeId.{NodeId, UaNodeId}
use modern_opc.Types.Names.{QualifiedName}
use modern_opc.Variant.{UaVariants}
use modern_opc.Methods.{TypeIds, Signature, get_input_arguments, get_output_arguments}
use modern_opc.Server.Registry.{Node}
use modern_opc.Server.Ua.{UaServer}
use modern_opc.Server.Callbacks.{World, take_pointer}
use modern_opc.Server.Callbacks.Steps.{KeepsContexts}
use modern_opc.Server.Callbacks.Invariant.{grown}
use modern_opc.Server.Callbacks.Making.{node_args}

module _ {S : Type 0} (U : UaServer S) (K : KeepsContexts U) (V : UaVariants) (ids : TypeIds) where
  -- The new node, the world in which the user holds it, and the world after the function was bound.
  abbrev pub new_node_of : NodeId → World S → Node
  new_node_of method w = record { address = w.server.next; id = method }

  abbrev pub with_node :
      UaNodeId → UaNodeId → NodeId → QualifiedName → Signature → World S → World S
  with_node p u method name g w =
      let ua =
        (U.add_method_node w.server.ua (node_args U K u p name) (get_input_arguments ids g)
          (get_output_arguments ids g)).1 in
      take_pointer w (some (new_node_of method w)) (grown U K method (record w.server { ua = ua }))
