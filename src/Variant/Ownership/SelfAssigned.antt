-- ===== src/Variant/Ownership/SelfAssigned.antt =====
-- A copy assignment of an object to itself (modernopc/src/Variant.cpp).
use modern_opc.Base.{==_refl, ℕ, ◌≡◌, refl, ◌∙◌, true, some, ok}
use modern_opc.Variant.{UaVariant, empty}
use modern_opc.Variant.Ownership.{
  VariantMemory, Variant, Cell, copy_assign, ua_clear, ua_read, ua_write, ua_copy,
}

module _ {Mem : Type 0} (M : VariantMemory Mem) where
  cell-write_self :
      (m : Mem) (p : ℕ) (v : UaVariant) (c : Cell)
      → M.cell m p ≡ some c
      → M.cell (M.write m p v) p ≡ some (record c { content = v })
  cell-write_self m p v c e = M.cell-write m p p v ∙ rw (==_refl p, e) refl

  -- The defect of Variant::operator=(const Variant &) on `x = x`: an owner is cleared before it is
  -- copied from, so whatever it held, it is empty afterwards.
  pub copy_assign_self_empties :
      (m : Mem) (v : Variant) (p : ℕ) (c : Cell)
      → v.owned ≡ true
      → v.variant ≡ some p
      → M.cell m p ≡ some c
      → (m' : Mem) × (copy_assign M m v v ≡ ok (record { variant = some p; owned = true }, m'))
        × (ua_read M m' (some p) ≡ ok empty)
  unfolding copy_assign ua_clear ua_copy ua_read ua_write
  copy_assign_self_empties m v p c o a e =
      let w = cell-write_self m p empty c e in
      (
        M.write (M.write m p empty) p empty,
        rw (o, a, e, w, copy_assign, ua_copy, ua_read, ua_write, ua_clear) refl,
        rw (cell-write_self (M.write m p empty) p empty (record c { content = empty }) w, ua_read)
            refl,
      )
