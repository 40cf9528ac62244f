-- ===== src/Server/Callbacks/Pointers.antt =====
-- A shared pointer to a MethodNode that the user drops (modernopc/include/modernopc/Server.h).
use modern_opc.Base.{
  ℕ, zero, suc, ◌≡◌, refl, sym, ap, Bool, true, false, ◌==◌, ==_refl, if◌then◌else◌, some, List, [],
  ◌∷◌, ok, throws, faults, Outcome, get_elem?, ◌||◌, subst, ◌>>=◌,
}
use modern_opc.Types.NodeId.{NodeId, IsNodeId, node_id_eq}
use modern_opc.Server.Registry.{Node, Registry, find}
use modern_opc.Server.Ua.{UaServer}
use modern_opc.Server.Callbacks.{World, in_registry, remove_pointer, drop_pointer}
use modern_opc.Server.Callbacks.Steps.{KeepsContexts}
use modern_opc.Server.Callbacks.Invariant.{IsSafe}

-- The pointers that are left are some of those that there were.
pub remove_pointer_kept :
    (P : Node → Type 0) (a : ℕ) (ns : List Node)
    → ((k : ℕ) (n : Node) → get_elem? ns k ≡ some n → P n)
    → (k : ℕ) (n : Node) → get_elem? (remove_pointer a ns) k ≡ some n
    → P n
unfolding remove_pointer
remove_pointer_kept P a [] h k n e = h k n e
remove_pointer_kept P a (m ∷ ns) h k n e =
    go (m.address == a) k e (remove_pointer_kept P a ns (λ l. h (suc l)))
  where
    go :
        (b : Bool) (j : ℕ)
        → get_elem? (if b then ns else m ∷ remove_pointer a ns) j ≡ some n
        → ((l : ℕ) (x : Node) → get_elem? (remove_pointer a ns) l ≡ some x → P x)
        → P n
    go true j g ih = h (suc j) n g
    go false zero g ih = h zero n g
    go false (suc j) g ih = ih j n g

or_true : (b : Bool) → (b || true) ≡ true
or_true true = refl
or_true false = refl

-- A node that is found is in the map.
pub find-in_registry :
    (id : NodeId) (n : Node) (r : Registry)
    → find id r ≡ ok (some n)
    → in_registry n.address r ≡ true
unfolding find in_registry
find-in_registry id n [] e = cc e
find-in_registry id n ((k, m) ∷ r) e = go (node_id_eq k id) e (find-in_registry id n r)
  where
    go :
        (same : Outcome Bool)
        → (same >>= λ b. if b then ok (some m) else find id r) ≡ ok (some n)
        → (find id r ≡ ok (some n) → in_registry n.address r ≡ true)
        → ((m.address == n.address) || in_registry n.address r) ≡ true
    go (ok true) h ih =
        let same : m ≡ n = cc h in
        subst (λ x. ((m.address == x) || in_registry n.address r) ≡ true) (ap Node.address same)
          (rw (==_refl m.address) refl)
    go (ok false) h ih = rw (ih h) (or_true (m.address == n.address))
    go (throws x) h ih = cc h
    go (faults x) h ih = cc h

module _ {S : Type 0} (U : UaServer S) (K : KeepsContexts U) where
  -- A dropped pointer is not the last one to its node, which the map holds.
  pub drop_pointer-IsSafe :
      (k : ℕ) (n : Node) (w : World S)
      → get_elem? w.held k ≡ some n
      → IsSafe U K w
      → (drop_pointer n w ≡ record w { held = remove_pointer n.address w.held })
        × IsSafe U K (drop_pointer n w)
  unfolding drop_pointer
  drop_pointer-IsSafe k n w e i =
      let (v, f) = i.kept k n e in
      let same : drop_pointer n w ≡ record w { held = remove_pointer n.address w.held } =
        rw (find-in_registry n.id n w.server.methods f, drop_pointer) refl in
      (same, subst (IsSafe U K) (sym same) safe)
    where
      safe : IsSafe U K (record w { held = remove_pointer n.address w.held })
      safe = record {
        methods_ok = i.methods_ok;
        nodes_apart = i.nodes_apart;
        kept =
            remove_pointer_kept (λ m. IsNodeId m.id × (find m.id w.server.methods ≡ ok (some m)))
              n.address w.held i.kept;
        nodes_known = i.nodes_known;
        alive = i.alive;
        callables_apart = i.callables_apart;
        owned = i.owned;
      }
