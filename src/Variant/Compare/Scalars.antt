-- ===== src/Variant/Compare/Scalars.antt =====
-- Variant::operator== (modernopc/src/Variant.cpp) on scalars.
use modern_opc.Types.UaText.{UaLocalizedText}
use modern_opc.Base.{
  Decides, Decides-of_test, subst, ◌≡◌, ◌≢◌, inl, inr, refl, ap, ℕ, true, false, Option, none, some,
  get_elem?, int_eq, int_eq_iff, arith, ℤ,
}
use modern_opc.Variant.{
  IntType, int8, uint8, int16, uint16, int32, uint32, int64, uint64, UaType, boolean, string,
  date_time, guid, byte_string, xml_element, node_id, expanded_node_id, status_code, qualified_name,
  localized_text, integer, Value, bool_value, int_value, string_value, guid_value, node_id_value,
  expanded_node_id_value, qualified_name_value, localized_text_value, scalar, first_value,
  UaVariants, AreVariants,
}
use modern_opc.Variant.Access.RoundTrip.{int_type_eq_refl}
use modern_opc.Variant.Compare.Arrays.{scalar_eq}
use modern_opc.Variant.Compare.{
  UaEqual, DecideEqual, CmpFn, bool_equal, int_equal, string_equal, guid_equal, node_id_equal,
  expanded_node_id_equal, qualified_name_equal, localized_text_equal, cmp_table, UaKinds,
  compare_data, variant_eq,
}

-- The kinds of the types that the table has a comparison for, in the order of the kinds'
-- enumeration; floating point is left out.
abbrev pub compared_kind : UaType → Option ℕ
compared_kind boolean = some 0
compared_kind (integer int8) = some 1
compared_kind (integer uint8) = some 2
compared_kind (integer int16) = some 3
compared_kind (integer uint16) = some 4
compared_kind (integer int32) = some 5
compared_kind (integer uint32) = some 6
compared_kind (integer int64) = some 7
compared_kind (integer uint64) = some 8
compared_kind string = some 11
compared_kind date_time = some 12
compared_kind guid = some 13
compared_kind byte_string = some 14
compared_kind xml_element = some 15
compared_kind node_id = some 16
compared_kind expanded_node_id = some 17
compared_kind status_code = some 18
compared_kind qualified_name = some 19
compared_kind localized_text = some 20
compared_kind _ = none

-- The types of open62541 have these kinds.
pub record KindsInOrder (k : UaKinds) : Type 0 where
  pub kind_of_lem : (t : UaType) (n : ℕ) → compared_kind t ≡ some n → k.kind_of t ≡ n

-- The value is one of the type, and the type is one that is compared by value.
abbrev pub Fits : UaType → Value → Type 0
Fits boolean (bool_value b) = Unit {0}
Fits (integer k) (int_value j z) = j ≡ k
Fits date_time (int_value j z) = j ≡ int64
Fits status_code (int_value j z) = j ≡ uint32
Fits string (string_value s) = Unit {0}
Fits byte_string (string_value s) = Unit {0}
Fits xml_element (string_value s) = Unit {0}
Fits guid (guid_value g) = Unit {0}
Fits node_id (node_id_value n) = Unit {0}
Fits expanded_node_id (expanded_node_id_value n) = Unit {0}
Fits qualified_name (qualified_name_value n) = Unit {0}
Fits localized_text (localized_text_value n) = Unit {0}
Fits _ _ = ⊥

-- The comparison that the table should hold for a type.
abbrev cmp_of : UaEqual → UaType → CmpFn
cmp_of e boolean = bool_equal
cmp_of e (integer k) = int_equal k
cmp_of e date_time = int_equal int64
cmp_of e status_code = int_equal uint32
cmp_of e guid = guid_equal e
cmp_of e node_id = node_id_equal e
cmp_of e expanded_node_id = expanded_node_id_equal e
cmp_of e qualified_name = qualified_name_equal e
cmp_of e localized_text = localized_text_equal e
cmp_of e _ = string_equal e

abbrev Listed : UaEqual → UaType → Option ℕ → Type 0
Listed e t none = Unit {0}
Listed e t (some n) = get_elem? (cmp_table e) n ≡ some (cmp_of e t)

int_Listed : (e : UaEqual) (k : IntType) → Listed e (integer k) (compared_kind (integer k))
unfolding cmp_table
int_Listed e int8 = refl
int_Listed e _ = refl

type_Listed : (e : UaEqual) (t : UaType) → Listed e t (compared_kind t)
unfolding cmp_table
type_Listed e (integer k) = int_Listed e k
type_Listed e boolean = refl
type_Listed e string = refl
type_Listed e date_time = refl
type_Listed e guid = refl
type_Listed e byte_string = refl
type_Listed e xml_element = refl
type_Listed e node_id = refl
type_Listed e expanded_node_id = refl
type_Listed e status_code = refl
type_Listed e qualified_name = refl
type_Listed e localized_text = refl
type_Listed e _ = tt

int_equal-Decides :
    (k i j : IntType) (a b : ℤ)
    → i ≡ k
    → j ≡ k
    → Decides (int_equal k (int_value i a) (int_value j b)) (int_value i a) (int_value j b)
unfolding int_equal
int_equal-Decides k i j a b p q =
    rw (p, q, int_type_eq_refl k)
      (Decides-of_test (int_eq a b) (int_value k) a b (int_eq_iff a b) (λ h. cc))

cmp_of-Decides :
    (e : UaEqual) (d : DecideEqual e) (t : UaType) (x y : Value)
    → Fits t x
    → Fits t y
    → Decides (cmp_of e t x y) x y
unfolding bool_equal string_equal guid_equal node_id_equal expanded_node_id_equal
    qualified_name_equal localized_text_equal
cmp_of-Decides e d boolean (bool_value true) (bool_value true) f g = inl (refl, refl)
cmp_of-Decides e d boolean (bool_value false) (bool_value false) f g = inl (refl, refl)
cmp_of-Decides e d boolean (bool_value true) (bool_value false) f g = inr (refl, λ h. cc)
cmp_of-Decides e d boolean (bool_value false) (bool_value true) f g = inr (refl, λ h. cc)
cmp_of-Decides e d (integer k) (int_value i a) (int_value j b) f g = int_equal-Decides k i j a b f g
cmp_of-Decides e d date_time (int_value i a) (int_value j b) f g =
    int_equal-Decides int64 i j a b f g
cmp_of-Decides e d status_code (int_value i a) (int_value j b) f g =
    int_equal-Decides uint32 i j a b f g
cmp_of-Decides e d string (string_value a) (string_value b) f g =
    Decides-of_test _ string_value a b (d.string_equal_iff a b) (λ h. cc)
cmp_of-Decides e d byte_string (string_value a) (string_value b) f g =
    Decides-of_test _ string_value a b (d.string_equal_iff a b) (λ h. cc)
cmp_of-Decides e d xml_element (string_value a) (string_value b) f g =
    Decides-of_test _ string_value a b (d.string_equal_iff a b) (λ h. cc)
cmp_of-Decides e d guid (guid_value a) (guid_value b) f g =
    Decides-of_test _ guid_value a b (d.guid_equal_iff a b) (λ h. cc)
cmp_of-Decides e d node_id (node_id_value a) (node_id_value b) f g =
    Decides-of_test _ node_id_value a b (d.node_id_equal_iff a b) (λ h. cc)
cmp_of-Decides e d expanded_node_id (expanded_node_id_value a) (expanded_node_id_value b) f g =
    Decides-of_test _ expanded_node_id_value a b (d.expanded_node_id_equal_iff a b) (λ h. cc)
cmp_of-Decides e d qualified_name (qualified_name_value a) (qualified_name_value b) f g =
    Decides-of_test _ qualified_name_value a b (d.qualified_name_equal_iff a b) (λ h. cc)
cmp_of-Decides e d localized_text (localized_text_value a) (localized_text_value b) f g =
    Decides-of_test _ localized_text_value a b
      (
        λ h. ground (arith, d.string_equal_iff a.locale b.locale, d.string_equal_iff a.text b.text),
        λ h. ground (
          arith,
          h,
          d.string_equal_iff a.locale b.locale,
          d.string_equal_iff a.text b.text,
          ap (λ (l : UaLocalizedText). l.locale) h,
          ap (λ (l : UaLocalizedText). l.text) h,
        ),
      )
      (λ h. cc)
cmp_of-Decides e d _ _ _ f g = ground arith

-- Only types that have a comparison are compared by value.
Fits-compared : (t : UaType) (x : Value) → Fits t x → compared_kind t ≢ none
Fits-compared (integer int8) x f = λ h. cc
Fits-compared (integer _) x f = λ h. cc
Fits-compared boolean x f = λ h. cc
Fits-compared t x f = λ h. ground arith

compare_data-cmp_of :
    (e : UaEqual) (k : UaKinds) (o : KindsInOrder k) (t : UaType) (x y : Value)
    → Fits t x
    → compare_data e k (scalar t x) (scalar t y) ≡ cmp_of e t x y
unfolding compare_data first_value
compare_data-cmp_of e k o t x y f = go (compared_kind t) refl
  where
    go :
        (m : Option ℕ)
        → compared_kind t ≡ m
        → compare_data e k (scalar t x) (scalar t y) ≡ cmp_of e t x y
    go none h = absurd (Fits-compared t x f h)
    go (some n) h =
        rw (o.kind_of_lem t n h, compare_data)
          (rw (subst (Listed e t) h (type_Listed e t), compare_data) refl)

-- Two scalars of one type, whose values are of that type, are compared without a fault, and the
-- answer is whether they are equal. The type is bool, an integer type, a text type, a Guid, a
-- node id, a DateTime, a StatusCode, a QualifiedName or a LocalizedText.
pub variant_eq-Decides :
    (u : UaVariants) (e : UaEqual) (k : UaKinds) (t : UaType) (x y : Value)
    → AreVariants u
    → DecideEqual e
    → KindsInOrder k
    → Fits t x
    → Fits t y
    → Decides (variant_eq u e k (scalar t x) (scalar t y)) x y
variant_eq-Decides u e k t x y a d o f g =
    rw (scalar_eq u e k a t x y, compare_data-cmp_of e k o t x y f) (cmp_of-Decides e d t x y f g)
