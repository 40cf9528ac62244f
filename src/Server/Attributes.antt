-- ===== src/Server/Attributes.antt =====
-- The attributes that class Node reads (modernopc/src/nodes/Node.cpp), and ObjectNode::eventNotifier
-- (modernopc/src/nodes/ObjectNode.cpp).
use modern_opc.Types.NodeId.Conversion.{from_node_id-total}
use modern_opc.Base.{
  none, Bool-cases, inl, inr, ℕ, suc, ◌≡◌, refl, ap, ◌∙◌, true, Option, some, Outcome, ok, ◌>>=◌,
  IsNulFree,
}
use modern_opc.Types.NodeId.{NodeId, IsNodeId, UaNodeId, from_node_id}
use modern_opc.Types.UaText.{ReadsCString, UaQualifiedName, UaLocalizedText}
use modern_opc.Types.Names.{
  QualifiedName, LocalizedText, from_qualified_name, from_ua_qualified_name, from_ua_localized_text,
}
use modern_opc.Types.Names.Conversion.{qualified_name_round_trip}
use modern_opc.Server.Status.{UaStatusCode, is_good}
use modern_opc.Server.Registry.{Node, Registry}
use modern_opc.Server.Registry.Laws.{emplace_lem}
use modern_opc.Server.Ua.{UaServer, NewNode}
use modern_opc.Server.Nodes.{Server, keep_object, create_object, new_node}
use modern_opc.Server.Lookup.{IsServer}
use modern_opc.Server.Lookup.Creation.{create_object_bad, with_context, create_object_good}

-- The reads of open62541: the status, and what the variable that the caller initialised holds
-- afterwards.
pub record UaAttributes (S : Type 0) : Type 0 where
  pub read_display_name : S → UaNodeId → UaStatusCode × UaLocalizedText
  pub read_browse_name : S → UaNodeId → UaStatusCode × UaQualifiedName
  pub read_event_notifier : S → UaNodeId → ℕ → UaStatusCode × ℕ

-- Node::getId
unfoldable pub get_id : Node → NodeId
get_id n = n.id

module _ {S : Type 0} (U : UaServer S) (A : UaAttributes S) where
  -- Node::displayName, which drops the status
  unfoldable pub display_name : Node → Server S → Outcome LocalizedText
  display_name n s = do
    ua_id ← from_node_id U.text n.id
    let (status, text) = A.read_display_name s.ua ua_id
    ok (from_ua_localized_text text)

  -- Node::browseName, which drops the status
  unfoldable pub browse_name : Node → Server S → Outcome QualifiedName
  unfolding from_ua_qualified_name
  browse_name n s = do
    ua_id ← from_node_id U.text n.id
    let (status, name) = A.read_browse_name s.ua ua_id
    ok (from_ua_qualified_name name)

  -- ObjectNode::eventNotifier: the status, and `value` afterwards
  unfoldable pub event_notifier : Node → ℕ → Server S → Outcome (UaStatusCode × ℕ)
  event_notifier n value s = do
    ua_id ← from_node_id U.text n.id
    ok (A.read_event_notifier s.ua ua_id value)

  -- open62541 gives back the browse name that a node was added with; a context does not change it.
  pub record KeepsNames : Type 0 where
    pub browse_name-add :
        (s : S) (args : NewNode) (type : UaNodeId)
        → is_good (U.add_object_node s args type).0 ≡ true
        → (A.read_browse_name (U.add_object_node s args type).1 args.requested).1 ≡ args.browse_name
    pub browse_name-context :
        (s : S) (u v : UaNodeId) (c : Option ℕ)
        → A.read_browse_name (U.set_node_context s u c) v ≡ A.read_browse_name s v

  keep_object_made :
      (id : NodeId) (s : Server S)
      → IsNodeId id
      → IsServer s
      → (r : Registry) × (keep_object U id s
          ≡ ok (
            some (record { address = s.next; id = id }),
            record s { next = suc s.next; objects = r },
          ))
  unfolding keep_object
  keep_object_made id s v i =
      let (r, e, _, _, g) = emplace_lem id s.next s.objects v i.0 in (r, rw e refl)

  browse_name_lem :
      (n : Node) (s : Server S) (u : UaNodeId) (name : UaQualifiedName)
      → from_node_id U.text n.id ≡ ok u
      → (A.read_browse_name s.ua u).1 ≡ name
      → browse_name n s ≡ ok (from_ua_qualified_name name)
  unfolding browse_name
  browse_name_lem n s u name e f = rw (e, f, browse_name) refl

  abbrev Named : QualifiedName → Option Node → Server S → Type 0
  Named name none t = Unit {0}
  Named name (some n) t = browse_name n t ≡ ok name

  -- An object that createObject makes has the browse name that it was made with: with well-formed node
  -- ids, createObject ends, and if it answers a node, browseName of that node is the name, if the name
  -- has no NUL byte.
  pub browse_name-create_object :
      (parent requested type : NodeId) (name : QualifiedName) (context : Option ℕ) (s : Server S)
      → KeepsNames
      → ReadsCString U.text
      → IsNodeId parent
      → IsNodeId requested
      → IsNodeId type
      → IsServer s
      → IsNulFree name.name
      → (n : Option Node) × (t : Server S) × (create_object U parent requested type name context s
          ≡ ok (n, t))
        × Named name n t
  unfolding new_node
  browse_name-create_object parent requested type name context s k r vp vr vt i h =
      let (u, e) = from_node_id-total U.text requested vr in
      let (p, e2) = from_node_id-total U.text parent vp in
      let (ua_type, g) = from_node_id-total U.text type vt in
      let args : NewNode = record {
        requested = u;
        parent = p;
        reference = U.names.has_component;
        browse_name = from_qualified_name U.text name;
      } in
      let f : new_node U requested parent name ≡ ok args = rw (e, e2, new_node) refl in
      let ua = (U.add_object_node s.ua args ua_type).1 in
      let mid : Server S = with_context U s ua u context in
      let (objects, made) = keep_object_made requested mid vr i in
      let n : Node = record { address = s.next; id = requested } in
      let t : Server S = record mid { next = suc s.next; objects = objects } in
      elim (Bool-cases (is_good (U.add_object_node s.ua args ua_type).0)) [
        | inl y ↦ (
          some n,
          t,
          create_object_good U parent requested type name context s args ua_type f g y ∙ made,
          browse_name_lem n t u (from_qualified_name U.text name) e (
                ap (λ (q : UaStatusCode × UaQualifiedName). q.1)
                  (k.browse_name-context ua u u context)
                ∙ k.browse_name-add s.ua args ua_type y)
              ∙ ap ok (qualified_name_round_trip U.text r name h),
        )
        | inr y ↦ (
          none,
          record s { ua = ua },
          create_object_bad U parent requested type name context s args ua_type f g y,
          tt,
        )
      ]
