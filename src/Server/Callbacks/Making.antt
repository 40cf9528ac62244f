-- ===== src/Server/Callbacks/Making.antt =====
-- createMethod and getMethod (modernopc/src/Server.cpp) in a world of shared nodes.
use modern_opc.Base.{
  ◌≡◌, refl, sym, ◌∙◌, ◌⊎◌, inl, inr, Bool, true, false, Bool-cases, Option, none, some, List, ◌∷◌,
  ok, subst,
}
use modern_opc.Types.NodeId.{NodeId, IsNodeId, UaNodeId, from_node_id}
use modern_opc.Types.NodeId.Conversion.{from_node_id-total}
use modern_opc.Types.Names.{QualifiedName, from_qualified_name}
use modern_opc.Server.Status.{is_good, class_method, class_eq}
use modern_opc.Server.Registry.{Node, find, emplace, Finds}
use modern_opc.Server.Registry.Laws.{find-emplace, find-Finds}
use modern_opc.Server.Ua.{NewNode, UaArgument, UaServer}
use modern_opc.Server.Nodes.{Server, new_node, keep_method, create_method, get_method, has_class}
use modern_opc.Server.Callbacks.{World, take_pointer, create_and_hold, get_and_hold}
use modern_opc.Server.Callbacks.Steps.{is_picked, KeepsContexts}
use modern_opc.Server.Callbacks.Invariant.{
  find-none-Absent, IsSafe, quiet-IsSafe, hold-IsSafe, grown, grown-IsSafe, IsQuiet,
}

module _ {S : Type 0} (U : UaServer S) (K : KeepsContexts U) where
  pub keep_method_new :
      (id : NodeId) (s : Server S)
      → find id s.methods ≡ ok none
      → keep_method U id s ≡ ok (some (record { address = s.next; id = id }), grown U K id s)
  unfolding keep_method emplace
  keep_method_new id s f = rw (f, keep_method, emplace) refl

  -- The user holds the node that was made.
  pub new_held-IsSafe :
      (w : World S) (id : NodeId) (u : UaNodeId)
      → IsNodeId id
      → find id w.server.methods ≡ ok none
      → from_node_id U.text id ≡ ok u
      → K.is_method w.server.ua u ≡ true
      → IsSafe U K w
      → IsSafe U K (
          take_pointer w
            (some (record { address = w.server.next; id = id }))
            (grown U K id w.server))
  unfolding take_pointer
  new_held-IsSafe w id u v f e known i =
      let new : Node = record { address = w.server.next; id = id } in
      hold-IsSafe U K (record w { server = grown U K id w.server }) new v
        (find-emplace id id new w.server.next w.server.methods v v i.methods_ok
          (find-none-Absent id w.server.next w.server.methods v i.methods_ok f)).0
        (grown-IsSafe U K w id u v f e known i)

  -- The arguments of UA_Server_addMethodNode.
  abbrev pub node_args : UaNodeId → UaNodeId → QualifiedName → NewNode
  node_args requested parent name = record {
    requested = requested;
    parent = parent;
    reference = U.names.has_component;
    browse_name = from_qualified_name U.text name;
  }

  pub create_method_good :
      (obj method : NodeId) (name : QualifiedName) (ins outs : List UaArgument) (s : Server S)
      (p u : UaNodeId)
      → from_node_id U.text obj ≡ ok p
      → from_node_id U.text method ≡ ok u
      → is_good (U.add_method_node s.ua (node_args u p name) ins outs).0 ≡ true
      → create_method U obj method name ins outs s
        ≡ keep_method U method
            (record s { ua = (U.add_method_node s.ua (node_args u p name) ins outs).1 })
  unfolding create_method new_node
  create_method_good obj method name ins outs s p u e f g =
      rw (e, f, g, create_method, new_node) refl

  create_method_bad :
      (obj method : NodeId) (name : QualifiedName) (ins outs : List UaArgument) (s : Server S)
      (p u : UaNodeId)
      → from_node_id U.text obj ≡ ok p
      → from_node_id U.text method ≡ ok u
      → is_good (U.add_method_node s.ua (node_args u p name) ins outs).0 ≡ false
      → create_method U obj method name ins outs s
        ≡ ok (none, record s { ua = (U.add_method_node s.ua (node_args u p name) ins outs).1 })
  unfolding create_method new_node
  create_method_bad obj method name ins outs s p u e f g =
      rw (e, f, g, create_method, new_node) refl

  pub added-IsQuiet :
      (s : S) (n : NewNode) (ins outs : List UaArgument)
      → IsQuiet U K s (U.add_method_node s n ins outs).1
  added-IsQuiet s n ins outs = (
    λ u h. K.method-add s n ins outs u h,
    λ u c m h. elim (K.context-add s n ins outs u) [
      | inl e ↦ (sym e.1 ∙ m, sym e.0 ∙ h)
      | inr e ↦ cc (e.1, h)
    ],
  )

  pub create_and_hold-IsSafe :
      (obj method : NodeId) (name : QualifiedName) (ins outs : List UaArgument) (w : World S)
      (u : UaNodeId)
      → IsNodeId obj
      → IsNodeId method
      → from_node_id U.text method ≡ ok u
      → is_picked u.identifier ≡ false
      → find method w.server.methods ≡ ok none
      → IsSafe U K w
      → (w' : World S) × (create_and_hold U obj method name ins outs w ≡ ok w')
        × IsSafe U K w'
        × (w'.heap ≡ w.heap)
        × ((x : UaNodeId)
            → ((K.context w'.server.ua x ≡ K.context w.server.ua x)
                × (K.is_method w'.server.ua x ≡ K.is_method w.server.ua x))
              ⊎ (x ≡ u))
  unfolding create_and_hold take_pointer
  create_and_hold-IsSafe obj method name ins outs w u vo vm e picked f i =
      let (p, g) = from_node_id-total U.text obj vo in
      let s = (U.add_method_node w.server.ua (node_args u p name) ins outs).1 in
      let quiet = added-IsQuiet w.server.ua (node_args u p name) ins outs in
      let v : World S = record w { server = record w.server { ua = s } } in
      elim (Bool-cases (is_good (U.add_method_node w.server.ua (node_args u p name) ins outs).0)) [
        | inl y ↦ (
          take_pointer v (some (record { address = w.server.next; id = method }))
              (grown U K method v.server),
          rw
              (
                create_method_good obj method name ins outs w.server p u g e y,
                keep_method_new method v.server f,
                create_and_hold,
              )
              refl,
          new_held-IsSafe v method u vm f e
              (K.add-method w.server.ua (node_args u p name) ins outs y picked)
              (quiet-IsSafe U K w s quiet i),
          refl,
          λ x. kept x (K.context-add w.server.ua (node_args u p name) ins outs x),
        )
        | inr y ↦ (
          v,
          rw (create_method_bad obj method name ins outs w.server p u g e y, create_and_hold) refl,
          quiet-IsSafe U K w s quiet i,
          refl,
          λ x. kept x (K.context-add w.server.ua (node_args u p name) ins outs x),
        )
      ]
    where
      kept : {A B : Type 0} (x : UaNodeId) → A ⊎ ((x ≡ u) × B) → A ⊎ (x ≡ u)
      kept x (inl h) = inl h
      kept x (inr h) = inr h.0

  get_method_found :
      (id : NodeId) (n : Node) (s : Server S)
      → find id s.methods ≡ ok (some n)
      → get_method U id s ≡ ok (some n, s)
  unfolding get_method
  get_method_found id n s f = rw (f, get_method) refl

  get_method_absent :
      (id : NodeId) (u : UaNodeId) (s : Server S)
      → find id s.methods ≡ ok none
      → from_node_id U.text id ≡ ok u
      → ((is_good (U.read_node_class s.ua u).0 ≡ true)
          × (class_eq (U.read_node_class s.ua u).1 class_method ≡ true)
          × (get_method U id s ≡ keep_method U id s))
        ⊎ (get_method U id s ≡ ok (none, s))
  unfolding get_method has_class
  get_method_absent id u s f e =
      go (is_good (U.read_node_class s.ua u).0) refl
        (class_eq (U.read_node_class s.ua u).1 class_method) refl
    where
      go :
          (g : Bool)
          → is_good (U.read_node_class s.ua u).0 ≡ g
          → (c : Bool) → class_eq (U.read_node_class s.ua u).1 class_method ≡ c
          → ((is_good (U.read_node_class s.ua u).0 ≡ true)
              × (class_eq (U.read_node_class s.ua u).1 class_method ≡ true)
              × (get_method U id s ≡ keep_method U id s))
            ⊎ (get_method U id s ≡ ok (none, s))
      go true p true q = inl (p, q, rw (f, e, p, q, get_method, has_class) refl)
      go true p false q = inr (rw (f, e, p, q, get_method, has_class) refl)
      go false p c q = inr (rw (f, e, p, get_method, has_class) refl)

  pub get_and_hold-IsSafe :
      (id : NodeId) (w : World S)
      → IsNodeId id
      → IsSafe U K w
      → (w' : World S) × (get_and_hold U id w ≡ ok w')
        × IsSafe U K w'
        × (w'.heap ≡ w.heap)
        × (w'.server.ua ≡ w.server.ua)
  unfolding get_and_hold take_pointer
  get_and_hold-IsSafe id w v i =
      let (o, f, h) = find-Finds id w.server.next w.server.methods v i.methods_ok in go o f h
    where
      go :
          (o : Option Node)
          → find id w.server.methods ≡ ok o
          → Finds id w.server.next w.server.methods o
          → (w' : World S) × (get_and_hold U id w ≡ ok w')
            × IsSafe U K w'
            × (w'.heap ≡ w.heap)
            × (w'.server.ua ≡ w.server.ua)
      go (some n) f h = (
        record w { held = n ∷ w.held },
        rw (get_method_found id n w.server f, get_and_hold) refl,
        hold-IsSafe U K w n (subst IsNodeId (sym h.0) v)
            (subst (λ j. find j w.server.methods ≡ ok (some n)) (sym h.0) f) i,
        refl,
        refl,
      )
      go none f h =
          let (u, e) = from_node_id-total U.text id v in
          elim (get_method_absent id u w.server f e) [
            | inl (g, z, k) ↦ (
              take_pointer w (some (record { address = w.server.next; id = id }))
                  (grown U K id w.server),
              rw (k, keep_method_new id w.server f, get_and_hold) refl,
              new_held-IsSafe w id u v f e (K.read-method w.server.ua u g z) i,
              refl,
              refl,
            )
            | inr k ↦ (w, rw (k, get_and_hold) refl, i, refl, refl)
          ]
