-- ===== src/Client/Outputs.antt =====
-- The outputs of Client::call (modernopc/src/client/Client.cpp), as objects of class Variant over the
-- array in which UA_Client_call gives them.
use modern_opc.Base.{
  ℕ, zero, suc, ◌+◌, ◌≡◌, refl, ◌⊎◌, inl, inr, ◌<◌, true, false, ◌==◌, List, [], ◌∷◌, Outcome, ok,
  faults, bad_access, ◌>>=◌, arith, subst,
}
use modern_opc.Variant.Ownership.{VariantMemory, Variant, is_heap, wrap, destroy, ua_delete}

module _ {Mem : Type 0} (M : VariantMemory Mem) where
  -- out.emplace_back(Variant(var, true)) for each element of the array
  unfoldable pub wrap_outputs : ℕ → ℕ → List Variant
  wrap_outputs zero p = []
  wrap_outputs (suc n) p = wrap M p true ∷ wrap_outputs n (suc p)

  -- ~std::vector<Variant>, which destroys the elements in order
  unfoldable pub destroy_outputs : List Variant → Mem → Outcome Mem
  unfolding destroy
  destroy_outputs [] m = ok m
  destroy_outputs (v ∷ vs) m = do m' ← destroy M m v; destroy_outputs vs m'

  -- An array of UA_Variants in one block of the heap: of the addresses of its elements, only the
  -- first is that of a block.
  pub record IsOutputArray (m : Mem) (p n : ℕ) : Type 0 where
    pub first_heap : is_heap (M.cell m p) ≡ true
    pub others_inside : (k : ℕ) → suc k < n → is_heap (M.cell m (p + suc k)) ≡ false

  destroy_owner :
      (m : Mem) (p : ℕ)
      → is_heap (M.cell m p) ≡ true
      → destroy M m (wrap M p true) ≡ ok (M.delete m p)
  unfolding destroy ua_delete
  destroy_owner m p h = rw h

  destroy_inside :
      (m : Mem) (p : ℕ)
      → is_heap (M.cell m p) ≡ false
      → destroy M m (wrap M p true) ≡ faults bad_access
  unfolding destroy ua_delete
  destroy_inside m p h = rw h

  -- After the first element is deleted, the address of the second is still none of a block.
  inside_after :
      (m : Mem) (p : ℕ)
      → is_heap (M.cell m (suc p)) ≡ false
      → is_heap (M.cell (M.delete m p) (suc p)) ≡ false
  inside_after m p h = rw (M.cell-delete m p (suc p), apart p) h
    where
      apart : (q : ℕ) → (q == suc q) ≡ false
      apart q = ground arith

  -- The defect of Client::call: it makes an owner of every element of the array of outputs. For one
  -- output, destroying what `call` answered deletes the array; for two or more it frees an address
  -- inside the block.
  pub destroy_outputs-wrap_outputs :
      (m : Mem) (p n : ℕ)
      → IsOutputArray m p n
      → 0 < n
      → ((n ≡ 1) × (destroy_outputs (wrap_outputs n p) m ≡ ok (M.delete m p)))
        ⊎ ((1 < n) × (destroy_outputs (wrap_outputs n p) m ≡ faults bad_access))
  unfolding destroy_outputs wrap_outputs
  destroy_outputs-wrap_outputs m p zero a h = absurd (omega arith)
  destroy_outputs-wrap_outputs m p (suc zero) a h =
      inl (refl, rw (destroy_owner m p a.first_heap, destroy_outputs) refl)
  destroy_outputs-wrap_outputs m p (suc (suc n)) a h =
      let second : p + 1 ≡ suc p = omega arith in
      let inside : is_heap (M.cell m (suc p)) ≡ false =
        subst (λ q. is_heap (M.cell m q) ≡ false) second (a.others_inside zero (omega arith)) in
      inr (
        omega arith,
        rw
            (
              destroy_owner m p a.first_heap,
              destroy_inside (M.delete m p) (suc p) (inside_after m p inside),
              destroy_outputs,
            )
            refl,
      )
