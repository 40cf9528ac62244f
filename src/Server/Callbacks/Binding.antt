-- ===== src/Server/Callbacks/Binding.antt =====
-- MethodNode::bindCallable (modernopc/include/modernopc/nodes/MethodNode.h) between calls of class
-- Server.
use modern_opc.Base.{
  true, ℕ, suc, ◌≡◌, ◌≢◌, refl, sym, ap, ◌∙◌, ◌⊎◌, inl, inr, ◌<◌, Bool-cases, ==_iff, ◌==◌, Option,
  none, some, ok, arith, ==_refl,
}
use modern_opc.Types.NodeId.{IsNodeId, UaNodeId, from_node_id}
use modern_opc.Methods.{Callable}
use modern_opc.Server.Registry.{Node, find}
use modern_opc.Server.Ua.{UaServer}
use modern_opc.Server.Nodes.{connect_method_callback}
use modern_opc.Server.Callbacks.{
  bind_callable_steps, World, update, release, assign_callable, bind_callable,
}
use modern_opc.Server.Callbacks.Steps.{KeepsContexts}
use modern_opc.Server.Callbacks.Invariant.{IsSafe}

pub update_same : {A : Type 0} (f : ℕ → Option A) (x : ℕ) (v : Option A) → update f x v x ≡ v
update_same f x v = rw (==_refl x) refl

pub update_other :
    {A : Type 0} (f : ℕ → Option A) (x y : ℕ) (v : Option A) → x ≢ y → update f x v y ≡ f y
update_other f x y v h = elim (Bool-cases (x == y)) [
  | inl e ↦ absurd (h ((==_iff x y).0 e))
  | inr e ↦ rw e refl
]

same_or_not : (x y : ℕ) → (x ≡ y) ⊎ (x ≢ y)
same_or_not x y = omega arith

release_other :
    (o : Option ℕ) (heap : ℕ → Option Callable) (c : ℕ) → o ≢ some c → release o heap c ≡ heap c
unfolding release
release_other none heap c h = refl
release_other (some d) heap c h = update_other heap d c none (λ e. h (ap some e))

module _ {S : Type 0} (U : UaServer S) (K : KeepsContexts U) where
  -- The world after the function was bound.
  abbrev pub bound : Callable → Node → UaNodeId → World S → World S
  bound f n u w = record w {
    server = record w.server {
      ua = U.set_node_context (U.set_method_callback w.server.ua u) u (some w.fresh);
    };
    callable = update w.callable n.address (some w.fresh);
    heap = release (w.callable n.address) (update w.heap w.fresh (some f));
    fresh = suc w.fresh;
  }

  pub bind_callable_lem :
      (f : Callable) (n : Node) (u : UaNodeId) (w : World S)
      → from_node_id U.text n.id ≡ ok u
      → bind_callable U f n w ≡ ok (bound f n u w)
  unfolding bind_callable bind_callable_steps connect_method_callback assign_callable
  bind_callable_lem f n u w e =
      rw (e, bind_callable, bind_callable_steps, connect_method_callback) refl

  module _ (f : Callable) (n : Node) (u : UaNodeId) (w : World S) (v : IsNodeId n.id)
      (found : find n.id w.server.methods ≡ ok (some n)) (e : from_node_id U.text n.id ≡ ok u)
      (i : IsSafe U K w) where
    -- What the new function's address holds, and what the other addresses hold.
    pub heap_new : release (w.callable n.address) (update w.heap w.fresh (some f)) w.fresh ≡ some f
    heap_new =
        release_other (w.callable n.address) _ w.fresh
          (λ h. absurd (omega (arith, (i.alive n.address w.fresh h).0)))
        ∙ update_same w.heap w.fresh (some f)

    pub heap_old :
        (c : ℕ)
        → w.callable n.address ≢ some c
        → c < w.fresh
        → release (w.callable n.address) (update w.heap w.fresh (some f)) c ≡ w.heap c
    heap_old c h below =
        release_other (w.callable n.address) _ c h
        ∙ update_other w.heap w.fresh c (some f) (λ p. absurd (omega arith))

    -- A node's function is the new one, or it is what it was.
    bound_cases :
        (a c : ℕ)
        → update w.callable n.address (some w.fresh) a ≡ some c
        → ((n.address ≡ a) × (c ≡ w.fresh)) ⊎ ((n.address ≢ a) × (w.callable a ≡ some c))
    bound_cases a c h = elim (same_or_not n.address a) [
      | inl p ↦ inl (p, cc (h, p, update_same w.callable n.address (some w.fresh)))
      | inr p ↦ inr (p, sym (update_other w.callable n.address a (some w.fresh) p) ∙ h)
    ]

    pub context_cases :
        (x : UaNodeId) → (x ≡ u) ⊎ (K.context (bound f n u w).server.ua x ≡ K.context w.server.ua x)
    context_cases x =
        elim (K.context-set_other (U.set_method_callback w.server.ua u) u x (some w.fresh)) [
          | inl p ↦ inl p
          | inr p ↦ inr (p ∙ K.context-callback w.server.ua u x)
        ]

    pub context_new : K.context (bound f n u w).server.ua u ≡ some w.fresh
    context_new =
        K.context-set _ u (some w.fresh) (
          K.method-known _ u (K.method-callback w.server.ua u u ∙ i.nodes_known n.id n u v found e))

    -- The methods are what they were.
    pub method_same :
        (x : UaNodeId) → K.is_method (bound f n u w).server.ua x ≡ K.is_method w.server.ua x
    method_same x =
        K.method-set (U.set_method_callback w.server.ua u) u x (some w.fresh)
        ∙ K.method-callback w.server.ua u x

    pub bound-IsSafe : IsSafe U K (bound f n u w)
    bound-IsSafe = record {
      methods_ok = i.methods_ok;
      nodes_apart = i.nodes_apart;
      kept = i.kept;
      nodes_known = λ j m x vj fj ej. method_same x ∙ i.nodes_known j m x vj fj ej;
      alive = λ a c h. alive a c (bound_cases a c h);
      callables_apart = λ a b c h k. apart a b c (bound_cases a c h) (bound_cases b c k);
      owned = λ x c z h. owned x c (sym (method_same x) ∙ z) h (context_cases x);
    }
      where
        alive :
            (a c : ℕ)
            → ((n.address ≡ a) × (c ≡ w.fresh)) ⊎ ((n.address ≢ a) × (w.callable a ≡ some c))
            → (c < suc w.fresh)
              × ((g : Callable) × (release (w.callable n.address) (update w.heap w.fresh (some f)) c
                    ≡ some g))
        alive a c (inl p) = (
          omega (arith, p.1),
          (f, ap (release (w.callable n.address) (update w.heap w.fresh (some f))) p.1 ∙ heap_new),
        )
        alive a c (inr p) =
            let (below, (g, h)) = i.alive a c p.1 in
            (
              omega arith,
              (g, heap_old c (λ q. p.0 (i.callables_apart n.address a c q p.1)) below ∙ h),
            )

        apart :
            (a b c : ℕ)
            → ((n.address ≡ a) × (c ≡ w.fresh)) ⊎ ((n.address ≢ a) × (w.callable a ≡ some c))
            → ((n.address ≡ b) × (c ≡ w.fresh)) ⊎ ((n.address ≢ b) × (w.callable b ≡ some c))
            → a ≡ b
        apart a b c (inl p) (inl q) = sym p.0 ∙ q.0
        apart a b c (inl p) (inr q) = absurd (omega (arith, p.1, (i.alive b c q.1).0))
        apart a b c (inr p) (inl q) = absurd (omega (arith, q.1, (i.alive a c p.1).0))
        apart a b c (inr p) (inr q) = i.callables_apart a b c p.1 q.1

        here :
            (x : UaNodeId) (c : ℕ)
            → K.context (bound f n u w).server.ua x ≡ some c
            → x ≡ u
            → update w.callable n.address (some w.fresh) n.address ≡ some c
        here x c h p =
            update_same w.callable n.address (some w.fresh)
            ∙ sym context_new
            ∙ ap (K.context (bound f n u w).server.ua) (sym p)
            ∙ h

        owned :
            (x : UaNodeId) (c : ℕ)
            → K.is_method w.server.ua x ≡ true
            → K.context (bound f n u w).server.ua x ≡ some c
            → (x ≡ u) ⊎ (K.context (bound f n u w).server.ua x ≡ K.context w.server.ua x)
            → (m : Node) × IsNodeId m.id
              × (find m.id w.server.methods ≡ ok (some m))
              × (update w.callable n.address (some w.fresh) m.address ≡ some c)
              × (from_node_id U.text m.id ≡ ok x)
        owned x c z h (inl p) = (n, v, found, here x c h p, e ∙ ap ok (sym p))
        owned x c z h (inr p) =
            let (m, vm, fm, cm, em) = i.owned x c z (sym p ∙ h) in
            elim (same_or_not n.address m.address) [
              | inl q ↦
                  let same = i.nodes_apart n.id m.id n m v vm found fm q in
                  (
                    n,
                    v,
                    found,
                    here x c h (cc (e, em, same)),
                    ap (λ k. from_node_id U.text (Node.id k)) same ∙ em,
                  )
              | inr q ↦
                  (m, vm, fm, update_other w.callable n.address m.address (some w.fresh) q ∙ cm, em)
            ]
