-- ===== src/Variant/Access/RoundTrip.antt =====
-- Variant::get after toUAVariant (modernopc/src/Variant_get.cpp).
use modern_opc.Base.{
  ◌≡◌, refl, true, List, [], ◌∷◌, ℤ, Bytes, ok, map, IsNulFree, Outcome, ap, >>=-eq-ok,
}
use modern_opc.Types.UaText.{UaText, ReadsCString}
use modern_opc.Types.NodeId.{IsNodeId, from_node_id, from_ua_node_id}
use modern_opc.Types.NodeId.Conversion.{HasNoNul, from_ua_node_id-from_node_id}
use modern_opc.Types.Names.Conversion.{
  from_ua_string_id, qualified_name_round_trip, localized_text_round_trip,
}
use modern_opc.Variant.{
  IntType, int8, int_value, string_value, UaVariants, AreVariants, UaVariant, first_value,
  node_id_value,
}
use modern_opc.Variant.Access.{
  CppValue, cpp_bool, cpp_int, cpp_float, cpp_double, cpp_string, cpp_node_id, cpp_qualified_name,
  cpp_localized_text, cpp_int_vector, cpp_string_vector, type_of, to_ua_variant, int_type_eq,
  read_int, read_string, read_all, get, get_int_vector, VectorInt, element_type,
  vector_to_ua_variant, is_a, get_data_type, node_id_type,
}

-- The values that survive the way through open62541: node ids that are well formed, and no NUL
-- byte in the texts that are passed as C strings.
abbrev pub Survives : CppValue → Type 0
Survives (cpp_node_id id) = IsNodeId id × HasNoNul id.i
Survives (cpp_qualified_name qn) = IsNulFree qn.name
Survives (cpp_localized_text lt) = IsNulFree lt.loc × IsNulFree lt.txt
Survives _ = Unit {0}

pub int_type_eq_refl : (k : IntType) → int_type_eq k k ≡ true
unfolding int_type_eq
int_type_eq_refl int8 = refl
int_type_eq_refl _ = refl

read_int_lem : (k : IntType) (z : ℤ) → read_int k (int_value k z) ≡ ok z
unfolding read_int
read_int_lem k z = rw (int_type_eq_refl k, read_int)

read_all-int : (k : IntType) (zs : List ℤ) → read_all (read_int k) (map (int_value k) zs) ≡ ok zs
unfolding read_all
read_all-int k [] = refl
read_all-int k (z ∷ zs) = simp (read_int_lem, read_all-int k zs)

read_all-string : (ss : List Bytes) → read_all read_string (map string_value ss) ≡ ok ss
unfolding read_all read_string
read_all-string [] = refl
read_all-string (s ∷ ss) = rw (from_ua_string_id, read_all-string ss)

-- The value has the type that it is read at, and what is read is the value.
abbrev pub ReadsBack : CppValue → Outcome UaVariant → Type 0
ReadsBack v r =
    (x : UaVariant) × (r ≡ ok x) × (is_a (type_of v) x ≡ true) × (get (type_of v) x ≡ ok v)

pub to_ua_variant-ReadsBack :
    (u : UaVariants) (t : UaText) (v : CppValue)
    → AreVariants u
    → ReadsCString t
    → Survives v
    → ReadsBack v (to_ua_variant u t v)
unfolding to_ua_variant vector_to_ua_variant get get_int_vector is_a first_value
to_ua_variant-ReadsBack u t (cpp_bool b) a r s =
    (_, refl, simp a.set_scalar_copy_lem, simp a.set_scalar_copy_lem)
to_ua_variant-ReadsBack u t (cpp_int k z) a r s = (
  _,
  refl,
  simp (a.set_scalar_copy_lem, int_type_eq_refl),
  simp (a.set_scalar_copy_lem, read_int_lem),
)
to_ua_variant-ReadsBack u t (cpp_float x) a r s =
    (_, refl, simp a.set_scalar_copy_lem, simp a.set_scalar_copy_lem)
to_ua_variant-ReadsBack u t (cpp_double x) a r s =
    (_, refl, simp a.set_scalar_copy_lem, simp a.set_scalar_copy_lem)
to_ua_variant-ReadsBack u t (cpp_string x) a r s =
    (_, refl, simp a.set_scalar_copy_lem, simp (a.set_scalar_copy_lem, from_ua_string_id))
to_ua_variant-ReadsBack u t (cpp_node_id id) a r s =
    let (x, e, f) = >>=-eq-ok (from_node_id t id) _ (from_ua_node_id-from_node_id t id r s.0 s.1) in
    let y : from_ua_node_id x ≡ id = cc f in
    (
      u.set_scalar_copy (get_data_type node_id_type) (node_id_value x),
      rw (e, to_ua_variant),
      simp a.set_scalar_copy_lem,
      simp a.set_scalar_copy_lem (ap (λ i. ok (cpp_node_id i)) y),
    )
to_ua_variant-ReadsBack u t (cpp_qualified_name qn) a r s = (
  _,
  refl,
  simp a.set_scalar_copy_lem,
  simp a.set_scalar_copy_lem
      (ap (λ n. ok (cpp_qualified_name n)) (qualified_name_round_trip t r qn s)),
)
to_ua_variant-ReadsBack u t (cpp_localized_text lt) a r s = (
  _,
  refl,
  simp a.set_scalar_copy_lem,
  simp a.set_scalar_copy_lem
      (ap (λ n. ok (cpp_localized_text n)) (localized_text_round_trip t r lt s.0 s.1)),
)
to_ua_variant-ReadsBack u t (cpp_int_vector zs) a r s = (
  _,
  refl,
  simp (a.set_array_copy_lem, int_type_eq_refl),
  simp (a.set_array_copy_lem, read_all-int),
)
to_ua_variant-ReadsBack u t (cpp_string_vector ss) a r s =
    (_, refl, simp a.set_array_copy_lem, simp (a.set_array_copy_lem, read_all-string))

-- What is put into a Variant can be read back at its type, and is_a says so: a bool, an integer, a
-- float, a double, a std::string, a std::vector of int or std::string; a node id that is well formed and
-- without NUL bytes; a QualifiedName and a LocalizedText without NUL bytes. Vectors of uint and uint64_t
-- can be read back too, though is_a has no instance for them.
pub get-to_ua_variant :
    (u : UaVariants) (t : UaText) (v : CppValue) (e : VectorInt) (zs : List ℤ)
    → AreVariants u
    → ReadsCString t
    → Survives v
    → ReadsBack v (to_ua_variant u t v)
      × (get_int_vector e (vector_to_ua_variant u (element_type e) zs) ≡ ok zs)
unfolding vector_to_ua_variant get_int_vector
get-to_ua_variant u t v e zs a r s =
    (to_ua_variant-ReadsBack u t v a r s, simp (a.set_array_copy_lem, read_all-int))
