-- ===== src/Variant/Ownership/Invariant.antt =====
-- The owners among the objects of class Variant (modernopc/src/Variant.cpp), and the effect of a call
-- on them.
use modern_opc.Base.{
  ℕ, ◌≡◌, ◌≢◌, sym, ap, ◌∙◌, inl, inr, true, ◌==◌, ==_iff, if◌then◌else◌, Bool-cases, Option, none,
  some, arith,
}
use modern_opc.Variant.{UaVariant}
use modern_opc.Variant.Ownership.{VariantMemory, Variant, is_heap}
use modern_opc.Variant.Ownership.Steps.{State}

-- The address that an object owns.
abbrev pub owned_ptr : Option Variant → Option ℕ
owned_ptr none = none
owned_ptr (some v) = if v.owned then v.variant else none

-- An owner is not null.
abbrev pub NotNull : Option Variant → Type 0
NotNull none = Unit {0}
NotNull (some v) = v.owned ≡ true → v.variant ≢ none

module _ {Mem : Type 0} (M : VariantMemory Mem) where
  -- What an object owns is alive and of UA_Variant_new's making, and no two own the same.
  pub record IsSound (s : State Mem) : Type 0 where
    pub not_null : (x : ℕ) → NotNull (s.vars x)
    pub alive_owned : (x p : ℕ) → owned_ptr (s.vars x) ≡ some p → is_heap (M.cell s.mem p) ≡ true
    pub apart : (x y p : ℕ) → owned_ptr (s.vars x) ≡ some p → owned_ptr (s.vars y) ≡ some p → x ≡ y

  -- The frame of a step: the heap objects that stay, and what one name owns afterwards.
  pub record Effect (s t : State Mem) (x : ℕ) (v : Option Variant) : Type 0 where
    pub vars_lem : (z : ℕ) → t.vars z ≡ (if x == z then v else s.vars z)
    pub keeps : (z p : ℕ) → z ≢ x → owned_ptr (s.vars z) ≡ some p → is_heap (M.cell t.mem p) ≡ true
    pub holds : NotNull v
    pub mine : (p : ℕ) → owned_ptr v ≡ some p → is_heap (M.cell t.mem p) ≡ true
    pub only : (z p : ℕ) → z ≢ x → owned_ptr v ≡ some p → owned_ptr (s.vars z) ≢ some p

  -- Split on whether a name is the one that the step changed.
  at {ℓ} :
      (P : Option Variant → Type ℓ) (s t : State Mem) (x z : ℕ) (v : Option Variant)
      → Effect s t x v
      → (x ≡ z → P v)
      → (x ≢ z → P (s.vars z))
      → P (t.vars z)
  at P s t x z v e hit miss = rw (e.vars_lem z) (elim (Bool-cases (x == z)) [
    | inl h ↦ rw h (hit ((==_iff x z).0 h))
    | inr h ↦ rw h (miss (λ q. cc (h, (==_iff x z).1 q)))
  ])

  pub Effect-IsSound :
      (s t : State Mem) (x : ℕ) (v : Option Variant) → Effect s t x v → IsSound s → IsSound t
  Effect-IsSound s t x v e i = record {
    not_null = λ z. at NotNull s t x z v e (λ _. e.holds) (λ _. i.not_null z);
    alive_owned = λ z p.
        at (λ w. owned_ptr w ≡ some p → is_heap (M.cell t.mem p) ≡ true) s t x z v e (λ _. e.mine p)
          (λ n. e.keeps z p (λ q. n (sym q)));
    apart = λ y z p.
        at (λ w. owned_ptr w ≡ some p → owned_ptr (t.vars z) ≡ some p → y ≡ z) s t x y v e
          (λ hy oy.
            at (λ w. owned_ptr w ≡ some p → y ≡ z) s t x z v e (λ hz _. sym hy ∙ hz)
              (λ nz oz. absurd (e.only z p (λ q. nz (sym q)) oy oz)))
          (λ ny oy.
            at (λ w. owned_ptr w ≡ some p → y ≡ z) s t x z v e
              (λ hz oz. absurd (e.only y p (λ q. ny (sym q)) oz oy))
              (λ nz oz. i.apart y z p oy oz));
  }

  -- A new object's address is not owned yet.
  pub fresh-ne :
      (s : State Mem) (z p : ℕ) → IsSound s → owned_ptr (s.vars z) ≡ some p → (M.new s.mem).0 ≢ p
  fresh-ne s z p i o q =
      cc (i.alive_owned z p o, ap (λ a. is_heap (M.cell s.mem a)) q, ap is_heap (M.fresh s.mem))

  -- The memory after UA_Variant_new, and after a write: what is alive stays alive.
  pub is_heap-new :
      (m : Mem) (p : ℕ) → is_heap (M.cell m p) ≡ true → is_heap (M.cell (M.new m).1 p) ≡ true
  is_heap-new m p h = ground (arith, M.cell-new m p)

  pub is_heap-new_self : (m : Mem) → is_heap (M.cell (M.new m).1 (M.new m).0) ≡ true
  is_heap-new_self m = ground (arith, M.cell-new m (M.new m).0)

  pub is_heap-write :
      (m : Mem) (q p : ℕ) (c : UaVariant)
      → is_heap (M.cell (M.write m q c) p) ≡ is_heap (M.cell m p)
  is_heap-write m q p c = ground (arith, M.cell-write m q p c)

  pub is_heap-delete :
      (m : Mem) (q p : ℕ) → q ≢ p → is_heap (M.cell (M.delete m q) p) ≡ is_heap (M.cell m p)
  is_heap-delete m q p n = ground (arith, M.cell-delete m q p)
