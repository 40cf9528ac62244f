-- ===== src/Variant/Shown.antt =====
-- isScalar, isEmpty and toString of class Variant, and toUAVariantImpl of a Variant
-- (modernopc/src/Variant.cpp).
use modern_opc.Base.{
  ◌≡◌, ◌≢◌, ◌⊎◌, inl, inr, refl, ap, not, Bool-cases, ℕ, Bool, if◌then◌else◌, none, some, Bytes,
  text, Outcome, ok, ◌>>=◌,
}
use modern_opc.Types.Names.{from_ua_string}
use modern_opc.Variant.{AreVariants, has_type, UaVariant, empty, UaVariants}
use modern_opc.Variant.Ownership.{Cell, VariantMemory, Variant, ua_read, ua_copy, ua_write}

module _ {Mem : Type 0} (M : VariantMemory Mem) (u : UaVariants) where
  -- Variant::isScalar
  unfoldable pub is_scalar : Mem → Variant → Outcome Bool
  unfolding ua_read
  is_scalar m this = do v ← ua_read M m this.variant; ok (u.is_scalar v)

  -- Variant::isEmpty
  unfoldable pub is_empty : Mem → Variant → Outcome Bool
  unfolding ua_read
  is_empty m this = do v ← ua_read M m this.variant; ok (u.is_empty v)

  -- toUAVariantImpl(const Variant &, UA_Variant *), which copies into the variable at `var`
  unfoldable pub to_ua_variant_impl : Mem → Variant → ℕ → Outcome Mem
  unfolding ua_copy ua_write
  to_ua_variant_impl m v var = do
    cleared ← ua_write M m (some var) empty
    ua_copy M cleared v.variant (some var)

  -- Variant::toString, `print` being UA_print
  unfoldable pub to_string : (UaVariant → Bytes) → Mem → Variant → Outcome Bytes
  unfolding ua_read is_empty from_ua_string
  to_string print m this = elim this.variant [
    | none ↦ ok (text "NULL or EMPTY")
    | some p ↦ do
      nothing ← is_empty m this
      v ← ua_read M m (some p)
      if nothing then ok (text "NULL or EMPTY") else ok (from_ua_string (print v))
  ]

  -- What toString may be called on: a null pointer, or a UA_Variant that is alive.
  abbrev pub IsShowable : Mem → Variant → Type 0
  IsShowable m this =
      (this.variant ≡ none)
      ⊎ ((p : ℕ) × (c : Cell) × (this.variant ≡ some p) × (M.cell m p ≡ some c))

  read_alive :
      (m : Mem) (p : ℕ) (c : Cell) → M.cell m p ≡ some c → ua_read M m (some p) ≡ ok c.content
  unfolding ua_read
  read_alive m p c f = rw (f, ua_read) refl

  is_empty_alive :
      (m : Mem) (this : Variant) (p : ℕ) (c : Cell)
      → this.variant ≡ some p
      → M.cell m p ≡ some c
      → is_empty m this ≡ ok (u.is_empty c.content)
  unfolding is_empty
  is_empty_alive m this p c e f = rw (e, read_alive m p c f, is_empty) refl

  -- toString returns on both, and what it says of a null pointer and of an empty UA_Variant is the
  -- same.
  pub to_string_lem :
      (print : UaVariant → Bytes) (m : Mem) (this : Variant)
      → AreVariants u
      → IsShowable m this
      → (to_string print m this ≡ ok (text "NULL or EMPTY"))
        ⊎ ((v : UaVariant) × (v ≢ empty)
            × (ua_read M m this.variant ≡ ok v)
            × (to_string print m this ≡ ok (from_ua_string (print v))))
  unfolding to_string
  to_string_lem print m this a (inl e) = inl (rw (e, to_string) refl)
  to_string_lem print m this a (inr (p, c, e, f)) = elim (Bool-cases (u.is_empty c.content)) [
    | inl y ↦ inl (rw (e, is_empty_alive m this p c e f, read_alive m p c f, y, to_string) refl)
    | inr y ↦ inr (
      c.content,
      λ g. cc (y, a.is_empty_lem c.content, ap (λ v. not (has_type v)) g),
      rw (e, read_alive m p c f) refl,
      rw (e, is_empty_alive m this p c e f, read_alive m p c f, y, to_string) refl,
    )
  ]
