-- ===== src/Server/Registry/Laws.antt =====
-- find and emplace of the maps of class Server.
use modern_opc.Base.{
  ℕ, ◌≡◌, ◌≢◌, refl, sym, ap, ◌∙◌, inl, inr, true, false, Option, none, some, [], ◌∷◌, ok, arith,
  ◌≤◌, suc,
}
use modern_opc.Types.NodeId.{NodeId, IsNodeId, node_id_eq}
use modern_opc.Types.NodeId.Equality.{node_id_eq-Decides}
use modern_opc.Server.Registry.{Node, Registry, find, emplace, Absent, IsRegistry, Finds}

pub node_id_eq_refl : (id : NodeId) → IsNodeId id → node_id_eq id id ≡ ok true
node_id_eq_refl id v = elim (node_id_eq-Decides id id v v) [
  | inl h ↦ h.0
  | inr h ↦ absurd (h.1 refl)
]

node_id_eq_ne : (a b : NodeId) → IsNodeId a → IsNodeId b → a ≢ b → node_id_eq a b ≡ ok false
node_id_eq_ne a b va vb n = elim (node_id_eq-Decides a b va vb) [
  | inl h ↦ absurd (n h.1)
  | inr h ↦ h.0
]

-- The first entry is hit or passed over.
find_hit :
    (id : NodeId) (n : Node) (r : Registry) → IsNodeId id → find id ((id, n) ∷ r) ≡ ok (some n)
unfolding find
find_hit id n r v = rw (node_id_eq_refl id v, find)

find_miss :
    (id k : NodeId) (n : Node) (r : Registry)
    → IsNodeId k
    → IsNodeId id
    → k ≢ id
    → find id ((k, n) ∷ r) ≡ find id r
unfolding find
find_miss id k n r vk v h = rw (node_id_eq_ne k id vk v h, find)

find_first :
    (id k : NodeId) (n : Node) (r : Registry)
    → node_id_eq k id ≡ ok true
    → find id ((k, n) ∷ r) ≡ ok (some n)
unfolding find
find_first id k n r e = rw (e, find)

-- A search returns, and what it finds is right.
pub find-Finds :
    (id : NodeId) (next : ℕ) (r : Registry)
    → IsNodeId id
    → IsRegistry next r
    → (o : Option Node) × (find id r ≡ ok o) × Finds id next r o
find-Finds id next [] v h = (none, unfold find in refl, tt)
find-Finds id next ((k, n) ∷ r) v h = elim (node_id_eq-Decides k id h.0 v) [
  | inl e ↦ (some n, find_first id k n r e.0, (h.1 ∙ e.1, h.2))
  | inr e ↦
      let (o, f, g) = find-Finds id next r v h.4 in
      (o, find_miss id k n r h.0 v e.1 ∙ f, skip o g e.1)
]
  where
    skip : (o : Option Node) → Finds id next r o → k ≢ id → Finds id next ((k, n) ∷ r) o
    skip none g ne = (ne, g)
    skip (some m) g ne = g

pub find-Absent :
    (id : NodeId) (next : ℕ) (r : Registry)
    → IsNodeId id
    → IsRegistry next r
    → Absent id r
    → find id r ≡ ok none
find-Absent id next [] v h a = unfold find in refl
find-Absent id next ((k, n) ∷ r) v h a =
    find_miss id k n r h.0 v a.0 ∙ find-Absent id next r v h.4 a.1

pub IsRegistry-mono : (m n : ℕ) (r : Registry) → m ≤ n → IsRegistry m r → IsRegistry n r
IsRegistry-mono m n [] h i = tt
IsRegistry-mono m n ((k, x) ∷ r) h i = (i.0, i.1, omega arith, i.3, IsRegistry-mono m n r h i.4)

-- A new id is added in front; an id that is there is left with its node.
pub emplace_new :
    (id : NodeId) (n : Node) (next : ℕ) (r : Registry)
    → IsNodeId id
    → IsRegistry next r
    → Absent id r
    → emplace id n r ≡ ok ((id, n) ∷ r)
unfolding emplace
emplace_new id n next r v i a = rw (find-Absent id next r v i a, emplace)

pub emplace_old :
    (id : NodeId) (n m : Node) (r : Registry) → find id r ≡ ok (some m) → emplace id n r ≡ ok r
unfolding emplace
emplace_old id n m r e = rw (e, emplace)

-- After adding a node under an id that was absent, the id is found with that node, and every
-- other id as before.
pub find-emplace :
    (id j : NodeId) (n : Node) (next : ℕ) (r : Registry)
    → IsNodeId id
    → IsNodeId j
    → IsRegistry next r
    → Absent id r
    → (find id ((id, n) ∷ r) ≡ ok (some n)) × (j ≢ id → find j ((id, n) ∷ r) ≡ find j r)
find-emplace id j n next r v w i a =
    (find_hit id n r v, λ h. find_miss j id n r v w (λ e. h (sym e)))

-- What was found is still found, as the same node.
abbrev pub Kept : Registry → Registry → Type 0
Kept r r' = (j : NodeId) (m : Node) → IsNodeId j → find j r ≡ ok (some m) → find j r' ≡ ok (some m)

-- map.emplace(id, std::make_shared<T>(this, id)) returns; it keeps the entries, and what it
-- leaves under the id is the new node, or the one that was there.
pub emplace_lem :
    (id : NodeId) (next : ℕ) (r : Registry)
    → IsNodeId id
    → IsRegistry next r
    → (r' : Registry) × (emplace id (record { address = next; id = id }) r ≡ ok r')
      × IsRegistry (suc next) r'
      × Kept r r'
      × (find id r ≡ ok none → find id r' ≡ ok (some (record { address = next; id = id })))
emplace_lem id next r v i = let (o, f, g) = find-Finds id next r v i in go o f g
  where
    n : Node
    n = record { address = next; id = id }

    go :
        (o : Option Node)
        → find id r ≡ ok o
        → Finds id next r o
        → (r' : Registry) × (emplace id n r ≡ ok r')
          × IsRegistry (suc next) r'
          × Kept r r'
          × (find id r ≡ ok none → find id r' ≡ ok (some n))
    go (some m) f g = (
      r,
      emplace_old id n m r f,
      IsRegistry-mono next (suc next) r (omega arith) i,
      λ j k w h. h,
      λ h. cc (f, h),
    )
    go none f a = (
      (id, n) ∷ r,
      emplace_new id n next r v i a,
      (v, refl, omega arith, a, IsRegistry-mono next (suc next) r (omega arith) i),
      λ j k w h. (find-emplace id j n next r v w i a).1 (λ e. cc (f, h, ap (λ x. find x r) e)) ∙ h,
      λ h. (find-emplace id id n next r v v i a).0,
    )
