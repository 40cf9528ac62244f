-- ===== src/Variant/Ownership/Borrowed.antt =====
-- A copy assignment into an object that borrows its UA_Variant (modernopc/src/Variant.cpp).
use modern_opc.Base.{
  bad_access, ==_refl, ℕ, ◌≡◌, ap, ◌∙◌, true, false, some, [], ◌∷◌, ok, faults, arith,
}
use modern_opc.Variant.{UaVariant}
use modern_opc.Variant.Ownership.{
  VariantMemory, Variant, Cell, is_heap, destroy, copy_assign, ua_delete, ua_read, ua_write,
  ua_copy,
}
use modern_opc.Variant.Ownership.Steps.{State, destroys, copy_assigns, update, step, run}
use modern_opc.Variant.Ownership.Invariant.{is_heap-write}
use modern_opc.Variant.Ownership.Calls.{IsReadable}

module _ {Mem : Type 0} (M : VariantMemory Mem) where
  -- The object borrows a UA_Variant that UA_Variant_new did not make: a local variable of the
  -- caller, or the value of a UA_DataValue that open62541 passes to a callback.
  pub record Borrows (s : State Mem) (x : ℕ) : Type 0 where
    pub object : Variant
    pub address : ℕ
    pub target : Cell
    pub object_lem : s.vars x ≡ some object
    pub borrowed : object.owned ≡ false
    pub address_lem : object.variant ≡ some address
    pub target_lem : M.cell s.mem address ≡ some target
    pub not_heap : target.on_heap ≡ false

  copy_assign_borrower :
      (m : Mem) (v w : Variant) (p q : ℕ) (c d : Cell)
      → v.owned ≡ false
      → v.variant ≡ some p
      → w.variant ≡ some q
      → M.cell m p ≡ some c
      → M.cell m q ≡ some d
      → copy_assign M m v w ≡ ok (record { variant = some p; owned = true }, M.write m p d.content)
  unfolding copy_assign ua_copy ua_read ua_write
  copy_assign_borrower m v w p q c d o a b e f = ground arith

  destroy_stack :
      (m : Mem) (p : ℕ)
      → is_heap (M.cell m p) ≡ false
      → destroy M m (record { variant = some p; owned = true }) ≡ faults bad_access
  unfolding destroy ua_delete
  destroy_stack m p h = rw h

  abbrev assigned : State Mem → ℕ → ℕ → UaVariant → State Mem
  assigned s x p c = record {
    mem = M.write s.mem p c;
    vars = update s.vars x (some (record { variant = some p; owned = true }));
  }

  step_assigns :
      (s : State Mem) (x y : ℕ) (b : Borrows s x) (r : IsReadable M s y)
      → step M (copy_assigns x y) s ≡ ok (assigned s x b.address r.target.content)
  unfolding step
  step_assigns s x y b r = rw (
    b.object_lem,
    r.object_lem,
    copy_assign_borrower s.mem b.object r.object b.address r.address b.target r.target b.borrowed
        b.address_lem r.address_lem b.target_lem r.target_lem,
    step,
  )

  step_destroys :
      (s : State Mem) (x p : ℕ) (c : UaVariant)
      → is_heap (M.cell s.mem p) ≡ false
      → step M (destroys x) (assigned s x p c) ≡ faults bad_access
  unfolding step
  step_destroys s x p c h =
      rw (==_refl x, destroy_stack (M.write s.mem p c) p (is_heap-write M s.mem p p c ∙ h), step)

  -- The defect of Variant::operator=(const Variant &): assigned to, a borrower takes itself for an
  -- owner, so that its destructor frees memory that was never allocated, whatever is assigned.
  pub copy_assign_then_destroy :
      (s : State Mem) (x y : ℕ)
      → Borrows s x
      → IsReadable M s y
      → run M (copy_assigns x y ∷ destroys x ∷ []) s ≡ faults bad_access
  unfolding run
  copy_assign_then_destroy s x y b r = rw (
    step_assigns s x y b r,
    step_destroys s x b.address r.target.content (ap is_heap b.target_lem ∙ b.not_heap),
    run,
  )
