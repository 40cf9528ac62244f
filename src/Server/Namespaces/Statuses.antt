-- ===== src/Server/Namespaces/Statuses.antt =====
-- The status codes of open62541 and of data sources in class Server and class VariableNode.
use modern_opc.Base.{◌≡◌, refl, true, ok, List, [], some, map}
use modern_opc.Types.NodeId.{NodeId, UaNodeId, IsNodeId, from_node_id, from_ua_node_id}
use modern_opc.Types.NodeId.Conversion.{from_node_id-total}
use modern_opc.Types.Names.{QualifiedName}
use modern_opc.Variant.{UaVariant}
use modern_opc.Server.Status.{UaStatusCode, good}
use modern_opc.Server.Ua.{UaServer}
use modern_opc.Server.Nodes.{Server}
use modern_opc.Server.Namespaces.{
  DataSource, internal_read, internal_write, write_variable, path_element,
  translate_path_to_node_id,
}

-- The defect of internalRead, internalWrite and VariableNode::write: whatever status the data
-- source returns, open62541 is told GOOD; and whatever status open62541 returns for the write of a
-- well-formed node id, the caller is told `true`.
pub statuses_lost :
    {S : Type 0} (U : UaServer S) (ds : DataSource) (ua_id : UaNodeId) (old new : UaVariant)
    (read_status write_status : UaStatusCode) (id : NodeId) (s : Server S)
    → ds.read (from_ua_node_id ua_id) old ≡ ok (read_status, new)
    → ds.write (from_ua_node_id ua_id) new ≡ ok write_status
    → IsNodeId id
    → (internal_read (some ds) ua_id old ≡ ok (good, new))
      × (internal_write (some ds) ua_id new ≡ ok good)
      × (t : Server S) × (write_variable U id new s ≡ ok (true, t))
unfolding internal_read internal_write write_variable
statuses_lost U ds ua_id old new read_status write_status id s r w v =
    let (i, e) = from_node_id-total U.text id v in
    (
      rw (r, internal_read) refl,
      rw (w, internal_write) refl,
      record s { ua = (U.write_value s.ua i new).1 },
      rw (e, write_variable) refl,
    )

-- The defect of translatePathToNodeId: a browse path result that is GOOD and has no target is
-- reported as GOOD, with the node id that the caller passed in unchanged.
pub translate_path_no_target :
    {S : Type 0} (U : UaServer S) (start : NodeId) (ua_start : UaNodeId) (path : List QualifiedName)
    (out : NodeId) (s : Server S)
    → from_node_id U.text start ≡ ok ua_start
    → U.translate_browse_path s.ua ua_start (map (path_element U) path)
      ≡ record { status_code = good; targets = [] }
    → translate_path_to_node_id U start path out s ≡ ok (good, out)
unfolding translate_path_to_node_id
translate_path_no_target U start ua_start path out s e h = rw (e, h, translate_path_to_node_id) refl
