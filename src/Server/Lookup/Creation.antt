-- ===== src/Server/Lookup/Creation.antt =====
-- Server::createObject (modernopc/src/Server.cpp) followed by getObject.
use modern_opc.Base.{
  ◌≡◌, ◌≢◌, refl, ◌∙◌, true, false, Bool-cases, ◌⊎◌, inl, inr, Option, none, some, ok, ℕ,
}
use modern_opc.Types.NodeId.{NodeId, UaNodeId, IsNodeId, from_node_id}
use modern_opc.Types.NodeId.Conversion.{from_node_id-total}
use modern_opc.Types.Names.{QualifiedName, from_qualified_name}
use modern_opc.Server.Status.{is_good}
use modern_opc.Server.Registry.{Node, find}
use modern_opc.Server.Ua.{UaServer, NewNode}
use modern_opc.Server.Nodes.{Server, new_node, keep_object, create_object, get_object}
use modern_opc.Server.Lookup.{IsServer}
use modern_opc.Server.Lookup.Objects.{get_object_cached, keep_object_new}

module _ {S : Type 0} (U : UaServer S) where
  -- The server after open62541 added the node and took its context.
  abbrev pub with_context : Server S → S → UaNodeId → Option ℕ → Server S
  with_context s ua id context = record s { ua = U.set_node_context ua id context }

  pub new_node-total :
      (requested parent : NodeId) (name : QualifiedName)
      → IsNodeId requested
      → IsNodeId parent
      → (args : NewNode) × (new_node U requested parent name ≡ ok args)
  unfolding new_node
  new_node-total requested parent name v w =
      let (a, e) = from_node_id-total U.text requested v in
      let (b, f) = from_node_id-total U.text parent w in
      (
        record {
          requested = a;
          parent = b;
          reference = U.names.has_component;
          browse_name = from_qualified_name U.text name;
        },
        rw (e, f, new_node) refl,
      )

  -- What `createObject` answers for the status of UA_Server_addObjectNode.
  pub create_object_good :
      (parent requested type : NodeId) (name : QualifiedName) (context : Option ℕ) (s : Server S)
      (args : NewNode) (ua_type : UaNodeId)
      → new_node U requested parent name ≡ ok args
      → from_node_id U.text type ≡ ok ua_type
      → is_good (U.add_object_node s.ua args ua_type).0 ≡ true
      → create_object U parent requested type name context s
        ≡ keep_object U requested
            (with_context s (U.add_object_node s.ua args ua_type).1 args.requested context)
  unfolding create_object
  create_object_good parent requested type name context s args ua_type e f g =
      rw (e, f, g, create_object) refl

  pub create_object_bad :
      (parent requested type : NodeId) (name : QualifiedName) (context : Option ℕ) (s : Server S)
      (args : NewNode) (ua_type : UaNodeId)
      → new_node U requested parent name ≡ ok args
      → from_node_id U.text type ≡ ok ua_type
      → is_good (U.add_object_node s.ua args ua_type).0 ≡ false
      → create_object U parent requested type name context s
        ≡ ok (none, record s { ua = (U.add_object_node s.ua args ua_type).1 })
  unfolding create_object
  create_object_bad parent requested type name context s args ua_type e f g =
      rw (e, f, g, create_object) refl

  -- Null, and then the three maps are as before; or a node of the requested id, which getObject
  -- answers from then on.
  abbrev pub Created : NodeId → Server S → Option Node → Server S → Type 0
  Created requested s none t =
      (t.objects ≡ s.objects) × (t.methods ≡ s.methods) × (t.variables ≡ s.variables)
  Created requested s (some n) t = (n.id ≡ requested) × (get_object U requested t ≡ ok (some n, t))

  -- createObject with well-formed node ids, of an id that has no object yet, ends without an
  -- exception. It answers null exactly when open62541 refuses the node, and then the three maps are
  -- as before; or it answers a node of the requested id, and getObject answers that same node
  -- afterwards.
  pub create_object_lem :
      (parent requested type : NodeId) (name : QualifiedName) (context : Option ℕ) (s : Server S)
      → IsNodeId parent
      → IsNodeId requested
      → IsNodeId type
      → IsServer s
      → find requested s.objects ≡ ok none
      → (args : NewNode) × (ua_type : UaNodeId) × (n : Option Node) × (t : Server S) × (new_node U
            requested parent name
          ≡ ok args)
        × (from_node_id U.text type ≡ ok ua_type)
        × (create_object U parent requested type name context s ≡ ok (n, t))
        × (((n ≡ none) × (is_good (U.add_object_node s.ua args ua_type).0 ≡ false))
            ⊎ ((n ≢ none) × (is_good (U.add_object_node s.ua args ua_type).0 ≡ true)))
        × Created requested s n t
  create_object_lem parent requested type name context s vp vr vt i f =
      let (args, e) = new_node-total requested parent name vr vp in
      let (ua_type, g) = from_node_id-total U.text type vt in
      elim (Bool-cases (is_good (U.add_object_node s.ua args ua_type).0)) [
        | inl y ↦
            let (t, k, h) =
              keep_object_new U requested
                (with_context s (U.add_object_node s.ua args ua_type).1 args.requested context) vr i
                f in
            (
              args,
              ua_type,
              some (record { address = s.next; id = requested }),
              t,
              e,
              g,
              create_object_good parent requested type name context s args ua_type e g y ∙ k,
              inr (λ p. cc p, y),
              (
                refl,
                get_object_cached U requested (record { address = s.next; id = requested }) t h,
              ),
            )
        | inr n ↦ (
          args,
          ua_type,
          none,
          record s { ua = (U.add_object_node s.ua args ua_type).1 },
          e,
          g,
          create_object_bad parent requested type name context s args ua_type e g n,
          inl (refl, n),
          (refl, refl, refl),
        )
      ]
