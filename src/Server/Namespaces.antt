-- ===== src/Server/Namespaces.antt =====
-- Namespaces and browse paths of class Server, and its callbacks for variables
-- (modernopc/src/Server.cpp, modernopc/src/nodes/VariableNode.cpp).
pub mod Laws
pub mod Statuses
pub mod Tests
use modern_opc.Base.{
  ℕ, zero, suc, ◌+◌, ◌%◌, ◌^◌, ◌≡◌, ◌≢◌, Bool, true, false, if◌then◌else◌, Bytes, bytes_eq, Outcome,
  ok, ◌>>=◌, List, [], ◌∷◌, map, Option, none, some,
}
use modern_opc.Types.NodeId.{NodeId, UaNodeId, from_node_id, from_ua_node_id}
use modern_opc.Types.Names.{QualifiedName, from_qualified_name}
use modern_opc.Variant.{Value, UaVariant, all_values}
use modern_opc.Variant.Access.{read_string}
use modern_opc.Server.Status.{UaStatusCode, good, bad_no_data, is_good}
use modern_opc.Server.Ua.{UaPathElement, UaBrowsePathResult, UaServer}
use modern_opc.Server.Nodes.{Server}

-- The loop of getNamespaceIndex. The counter is a uint16_t.
unfoldable pub index_of_uri : Bytes → ℕ → List Value → Outcome ℕ
unfolding read_string
index_of_uri uri i [] = ok 0
index_of_uri uri i (v ∷ vs) = do
  ns ← read_string v
  let rest = index_of_uri uri ((i + 1) % 2 ^ 16) vs
  if bytes_eq uri ns then ok i else rest

-- DataSource, whose functions are handed in
pub record DataSource : Type 0 where
  pub key : Bytes
  pub read : NodeId → UaVariant → Outcome (UaStatusCode × UaVariant)
  pub write : NodeId → UaVariant → Outcome UaStatusCode

-- Server::internalRead: the status, and the value afterwards
unfoldable pub internal_read :
    Option DataSource → UaNodeId → UaVariant → Outcome (UaStatusCode × UaVariant)
unfolding from_ua_node_id
internal_read none id value = ok (bad_no_data, value)
internal_read (some ds) id value = do
  (status, var) ← ds.read (from_ua_node_id id) value
  ok (good, var)

-- Server::internalWrite
unfoldable pub internal_write : Option DataSource → UaNodeId → UaVariant → Outcome UaStatusCode
unfolding from_ua_node_id
internal_write none id value = ok bad_no_data
internal_write (some ds) id value = do status ← ds.write (from_ua_node_id id) value; ok good

module _ {S : Type 0} (U : UaServer S) where
  -- Server::getNamespaceIndex
  unfoldable pub get_namespace_index : Bytes → Server S → Outcome ℕ
  unfolding index_of_uri
  get_namespace_index uri s =
      let (status, v) = U.read_value s.ua U.names.server_namespace_array in
      if is_good status then index_of_uri uri 0 (all_values v) else ok 0

  -- One element of the relative path.
  unfoldable pub path_element : QualifiedName → UaPathElement
  path_element qn = record {
    reference_type = U.names.hierarchical_references;
    is_inverse = false;
    include_subtypes = true;
    target_name = from_qualified_name U.text qn;
  }

  -- Server::translatePathToNodeId: the status, and `outId` afterwards
  unfoldable pub translate_path_to_node_id :
      NodeId → List QualifiedName → NodeId → Server S → Outcome (UaStatusCode × NodeId)
  unfolding path_element from_ua_node_id
  translate_path_to_node_id start qns out s = do
    ua_start ← from_node_id U.text start
    let bpr = U.translate_browse_path s.ua ua_start (map path_element qns)
    if is_good bpr.status_code
        then ok (bpr.status_code, elim bpr.targets [ [] ↦ out | id ∷ ids ↦ from_ua_node_id id ])
        else ok (bpr.status_code, out)

  -- VariableNode::read, whose answer is with the value: the variant is cleared before the call
  unfoldable pub read_variable : NodeId → Server S → Outcome (Bool × UaVariant)
  read_variable id s = do
    ua_id ← from_node_id U.text id
    let (status, v) = U.read_value s.ua ua_id
    ok (is_good status, v)

  -- VariableNode::write: the `if` on the status has an empty body
  unfoldable pub write_variable : NodeId → UaVariant → Server S → Outcome (Bool × Server S)
  write_variable id v s = do
    ua_id ← from_node_id U.text id
    let (status, ua) = U.write_value s.ua ua_id v
    ok (true, record s { ua = ua })
