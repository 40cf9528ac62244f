-- ===== src/Variant/Compare/Arrays.antt =====
-- Variant::operator== (modernopc/src/Variant.cpp) on arrays, and on variants of any shape.
use modern_opc.Base.{
  ◌≡◌, ◌⊎◌, inl, inr, refl, true, false, ◌==◌, ==_iff, ==_refl, List, ◌∷◌, length, ok, Bool-cases,
}
use modern_opc.Variant.{
  UaType, integer, custom, Value, UaVariant, empty, scalar, array, first_value, UaVariants,
  AreVariants,
}
use modern_opc.Variant.Access.{ua_type_eq}
use modern_opc.Variant.Access.RoundTrip.{int_type_eq_refl}
use modern_opc.Variant.Compare.{UaEqual, UaKinds, compare_data, variant_eq}

ua_type_eq_refl : (t : UaType) → ua_type_eq t t ≡ true
unfolding ua_type_eq
ua_type_eq_refl (integer k) = int_type_eq_refl k
ua_type_eq_refl (custom n) = ==_refl n
ua_type_eq_refl _ = refl

-- The parts of a variant that are compared before its values.
abbrev pub SameShape : UaVariant → UaVariant → Type 0
SameShape empty empty = Unit {0}
SameShape (scalar s x) (scalar t y) = ua_type_eq s t ≡ true
SameShape (array s xs) (array t ys) = (ua_type_eq s t ≡ true) × (length xs ≡ length ys)
SameShape _ _ = ⊥

module _ (u : UaVariants) (e : UaEqual) (k : UaKinds) (a : AreVariants u) where
  -- Two scalars of one type are compared by the table's entry.
  pub scalar_eq :
      (t : UaType) (x y : Value)
      → variant_eq u e k (scalar t x) (scalar t y) ≡ compare_data e k (scalar t x) (scalar t y)
  unfolding variant_eq
  scalar_eq t x y = simp (a.is_empty_lem, a.is_scalar_lem, ua_type_eq_refl)

  -- Two arrays of one type and one length, neither of them empty, compare as their first elements
  -- do: the other elements are not looked at.
  pub variant_eq_array :
      (t : UaType) (x y : Value) (xs ys : List Value)
      → length xs ≡ length ys
      → variant_eq u e k (array t (x ∷ xs)) (array t (y ∷ ys))
        ≡ variant_eq u e k (scalar t x) (scalar t y)
  unfolding variant_eq compare_data first_value
  variant_eq_array t x y xs ys h =
      simp (a.is_empty_lem, a.is_scalar_lem, ua_type_eq_refl, h, ==_refl)

  -- An answer of `true` means: both are empty, or both are scalars of one type, or both are arrays
  -- of one type and one length. Every other pair is answered `false`, with no value looked at.
  pub variant_eq_shape : (v w : UaVariant) → SameShape v w ⊎ (variant_eq u e k v w ≡ ok false)
  unfolding variant_eq
  variant_eq_shape empty empty = inl tt
  variant_eq_shape (scalar s x) (scalar t y) = elim (Bool-cases (ua_type_eq s t)) [
    | inl h ↦ inl h
    | inr h ↦ inr (simp (a.is_empty_lem, a.is_scalar_lem, h))
  ]
  variant_eq_shape (array s xs) (array t ys) = elim (Bool-cases (ua_type_eq s t)) [
    | inl h ↦ elim (Bool-cases (length xs == length ys)) [
      | inl l ↦ inl (h, (==_iff _ _).0 l)
      | inr l ↦ inr (simp (a.is_empty_lem, a.is_scalar_lem, h, l))
    ]
    | inr h ↦ inr (simp (a.is_empty_lem, a.is_scalar_lem, h))
  ]
  variant_eq_shape _ _ = inr (simp (a.is_empty_lem, a.is_scalar_lem))
