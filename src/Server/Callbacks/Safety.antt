-- ===== src/Server/Callbacks/Safety.antt =====
-- The calls of class Server and of its methods, one after the other (modernopc/src/Server.cpp,
-- modernopc/include/modernopc/nodes/MethodNode.h).
use modern_opc.Base.{
  true, ℕ, ◌≡◌, ◌≢◌, refl, sym, ap, ◌∙◌, ◌⊎◌, inl, inr, Option, none, some, List, ok, get_elem?,
  All, subst,
}
use modern_opc.Types.NodeId.{IsNodeId, UaNodeId, from_node_id}
use modern_opc.Types.NodeId.Conversion.{from_node_id-total}
use modern_opc.Variant.{UaVariant}
use modern_opc.Methods.{Callable, internal_method_callback}
use modern_opc.Server.Registry.{Node, find}
use modern_opc.Server.Ua.{UaServer}
use modern_opc.Server.Callbacks.{call_at, World, bind_callable, call_back}
use modern_opc.Server.Callbacks.Steps.{
  KeepsContexts, Action, creates, gets, binds, drops, Step, create_step, get_step, bind_step,
  drop_step, Run, done, next,
}
use modern_opc.Server.Callbacks.Invariant.{IsSafe}
use modern_opc.Server.Callbacks.Binding.{
  bound, bind_callable_lem, bound-IsSafe, context_new, context_cases, method_same, heap_new,
  heap_old,
}
use modern_opc.Server.Callbacks.Pointers.{drop_pointer-IsSafe}
use modern_opc.Server.Callbacks.Making.{create_and_hold-IsSafe, get_and_hold-IsSafe}

module _ {S : Type 0} (U : UaServer S) (K : KeepsContexts U) where
  -- The context of the method is the address of that function.
  abbrev pub Reaches : UaNodeId → ℕ → Callable → World S → Type 0
  Reaches u c f w =
      (K.context w.server.ua u ≡ some c) × (w.heap c ≡ some f) × (K.is_method w.server.ua u ≡ true)

  -- A call that does not give the node of that id to another function, or make it anew.
  abbrev pub Spares : UaNodeId → Action → Type 0
  Spares u (creates obj method name ins outs) = from_node_id U.text method ≢ ok u
  Spares u (gets id) = Unit {0}
  Spares u (binds f n) = from_node_id U.text n.id ≢ ok u
  Spares u (drops n) = Unit {0}

  -- A step keeps the invariant, and what a spared node reaches.
  abbrev StepKeeps : Action → World S → World S → Type 0
  StepKeeps a w w' =
      IsSafe U K w'
      × ((u : UaNodeId) (c : ℕ) (f : Callable) → Spares u a → Reaches u c f w → Reaches u c f w')

  bound-Reaches :
      (g : Callable) (n : Node) (v : UaNodeId) (w : World S)
      → IsNodeId n.id
      → find n.id w.server.methods ≡ ok (some n)
      → from_node_id U.text n.id ≡ ok v
      → IsSafe U K w
      → (u : UaNodeId) (c : ℕ) (f : Callable) → from_node_id U.text n.id ≢ ok u
      → Reaches u c f w
      → Reaches u c f (bound U K g n v w)
  bound-Reaches g n v w vn found e i u c f spared (r, h, z) =
      elim (context_cases U K g n v w vn found e i u) [
        | inl p ↦ absurd (spared (e ∙ ap ok (sym p)))
        | inr p ↦
            let (m, vm, fm, cm, em) = i.owned u c z r in
            (
              p ∙ r,
              heap_old U K g n v w vn found e i c
                    (λ q. spared (
                      ap (λ k. from_node_id U.text (Node.id k))
                        (i.nodes_apart n.id m.id n m vn vm found fm
                          (i.callables_apart n.address m.address c q cm))
                      ∙ em))
                    (i.alive m.address c cm).0
                  ∙ h,
              method_same U K g n v w vn found e i u ∙ z,
            )
      ]

  Step-keeps : {a : Action} {w w' : World S} → Step U a w w' → IsSafe U K w → StepKeeps a w w'
  Step-keeps (create_step {obj} {method} {name} {ins} {outs} {w} {w'} u vo vm e picked f made) i =
      let (x, g, safe, heap, contexts) =
        create_and_hold-IsSafe U K obj method name ins outs w u vo vm e picked f i in
      let same : x ≡ w' = cc (g, made) in
      subst (StepKeeps (creates obj method name ins outs) w) same (
        safe,
        λ v c fn spared h. elim (contexts v) [
          | inl p ↦ (p.0 ∙ h.0, ap (λ (q : ℕ → Option Callable). q c) heap ∙ h.1, p.1 ∙ h.2)
          | inr p ↦ absurd (spared (e ∙ ap ok (sym p)))
        ],
      )
  Step-keeps (get_step {id} {w} {w'} v made) i =
      let (x, g, safe, heap, ua) = get_and_hold-IsSafe U K id w v i in
      let same : x ≡ w' = cc (g, made) in
      subst (StepKeeps (gets id) w) same (
        safe,
        λ u c fn spared h. (
          ap (λ t. K.context t u) ua ∙ h.0,
          ap (λ (q : ℕ → Option Callable). q c) heap ∙ h.1,
          ap (λ t. K.is_method t u) ua ∙ h.2,
        ),
      )
  Step-keeps (bind_step {f} {n} {w} {w'} k held made) i =
      let (v, found) = i.kept k n held in
      let (u, e) = from_node_id-total U.text n.id v in
      let same : bound U K f n u w ≡ w' = cc (bind_callable_lem U K f n u w e, made) in
      subst (StepKeeps (binds f n) w) same
        (bound-IsSafe U K f n u w v found e i, bound-Reaches f n u w v found e i)
  Step-keeps (drop_step {n} {w} k held) i =
      let (same, safe) = drop_pointer-IsSafe U K k n w held i in
      subst (StepKeeps (drops n) w) (sym same) (subst (IsSafe U K) same safe, λ u c fn spared h. h)

  Run-keeps :
      {actions : List Action} {w w' : World S}
      → Run U actions w w'
      → IsSafe U K w
      → IsSafe U K w'
        × ((u : UaNodeId) (c : ℕ) (f : Callable)
            → All (Spares u) actions
            → Reaches u c f w
            → Reaches u c f w')
  Run-keeps done i = (i, λ u c f spared h. h)
  Run-keeps (next s r) i =
      let (j, keeps) = Step-keeps s i in
      let (k, keep) = Run-keeps r j in
      (k, λ u c f spared h. keep u c f spared.1 (keeps u c f spared.0 h))

  -- What a call of the method `u` of the object `o` by open62541 does: without a context it ends as
  -- internalMethodCallback on null; with one, that is the address of an ICallable that is alive and
  -- owned by the method's node in the map, and it ends as internalMethodCallback on that function.
  abbrev pub CallsBack : UaNodeId → UaNodeId → List UaVariant → List UaVariant → World S → Type 0
  CallsBack u o ins outs w =
      ((K.context w.server.ua u ≡ none)
        × (call_back U K.context u o ins outs w
            ≡ internal_method_callback none (K.context w.server.ua o) ins outs))
      ⊎ ((n : Node) × (c : ℕ) × (f : Callable) × (find n.id w.server.methods ≡ ok (some n))
          × (from_node_id U.text n.id ≡ ok u)
          × (K.context w.server.ua u ≡ some c)
          × (w.callable n.address ≡ some c)
          × (w.heap c ≡ some f)
          × (call_back U K.context u o ins outs w
              ≡ internal_method_callback (some f) (K.context w.server.ua o) ins outs))

  -- Whatever a program of createMethod, getMethod, bindCallable and dropped pointers does, a call of a
  -- method by open62541 between two of its calls follows no dangling pointer: it ends as
  -- internalMethodCallback does on the function that the method's node in the map owns, which is
  -- alive, or on null. The program calls createMethod only for ids that the map does not hold and that
  -- are not for open62541 to pick, and the world before it is sound. Objects and variables may have
  -- any contexts.
  pub Run-call_back :
      (actions : List Action) (w w' : World S)
      → IsSafe U K w
      → Run U actions w w'
      → IsSafe U K w'
        × ((u o : UaNodeId) (ins outs : List UaVariant)
            → K.is_method w'.server.ua u ≡ true
            → CallsBack u o ins outs w')
  unfolding call_back call_at
  Run-call_back actions w w' i r =
      (safe, λ u o ins outs z. go u o ins outs z (K.context w'.server.ua u) refl)
    where
      safe : IsSafe U K w'
      safe = (Run-keeps r i).0

      go :
          (u o : UaNodeId) (ins outs : List UaVariant)
          → K.is_method w'.server.ua u ≡ true
          → (c : Option ℕ) → K.context w'.server.ua u ≡ c
          → CallsBack u o ins outs w'
      go u o ins outs z none e = inl (e, rw (e, call_back, call_at) refl)
      go u o ins outs z (some c) e =
          let (n, v, found, m, g) = safe.owned u c z e in
          let (below, (f, h)) = safe.alive n.address c m in
          inr (n, c, f, found, g, e, m, h, rw (e, h, call_back, call_at) refl)

  -- bindCallable on a node that the user holds returns, and from then on a call of that method by
  -- open62541, between two calls, runs the function that was bound, whatever further calls are made and even when every
  -- pointer to the node was dropped: as long as no other function is bound to a node of that id, and
  -- no method is created under it. So does a call that was given the function's address earlier and is
  -- still under way then.
  pub bind_callable-call_back :
      (f : Callable) (k : ℕ) (n : Node) (u : UaNodeId) (w x : World S) (actions : List Action)
      (o : UaNodeId) (ins outs : List UaVariant)
      → IsSafe U K w
      → get_elem? w.held k ≡ some n
      → from_node_id U.text n.id ≡ ok u
      → Run U actions (bound U K f n u w) x
      → All (Spares u) actions
      → (bind_callable U f n w ≡ ok (bound U K f n u w))
        × (call_back U K.context u o ins outs x
            ≡ internal_method_callback (some f) (K.context x.server.ua o) ins outs)
        × ((object : Option ℕ)
            → call_at (some w.fresh) object ins outs x
              ≡ internal_method_callback (some f) object ins outs)
  unfolding call_back call_at
  bind_callable-call_back f k n u w x actions o ins outs i held e r spared =
      let (v, found) = i.kept k n held in
      let h = (Run-keeps r (bound-IsSafe U K f n u w v found e i)).1 u w.fresh f spared (
        context_new U K f n u w v found e i,
        heap_new U K f n u w v found e i,
        method_same U K f n u w v found e i u ∙ i.nodes_known n.id n u v found e,
      ) in
      (
        bind_callable_lem U K f n u w e,
        rw (h.0, h.1, call_back, call_at) refl,
        λ object. rw (h.1, call_at) refl,
      )
