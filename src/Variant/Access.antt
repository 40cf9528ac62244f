-- ===== src/Variant/Access.antt =====
-- Variant(T &&), operator()(const T &), get<T>() and is_a<T>(): modernopc/include/modernopc/Variant.h
-- and DataType.h, modernopc/src/Variant_get.cpp, and the overloads of toUAVariantImpl.
pub mod RoundTrip
pub mod Typed
use modern_opc.Base.{
  ℕ, Bool, true, false, Bytes, List, [], ◌∷◌, ℤ, Outcome, ok, faults, throws, bad_access, ◌>>=◌,
  map, ◌==◌, ◌&&◌,
}
use modern_opc.Types.NodeId.{NodeId, from_node_id, from_ua_node_id}
use modern_opc.Types.UaText.{UaText}
use modern_opc.Types.Names.{
  QualifiedName, LocalizedText, from_ua_string, from_qualified_name, from_ua_qualified_name,
  from_localized_text, from_ua_localized_text,
}
use modern_opc.Variant.{
  IntType, int8, uint8, int16, uint16, int32, uint32, int64, uint64, UaType, boolean, float, double,
  string, date_time, guid, byte_string, xml_element, node_id, expanded_node_id, status_code,
  qualified_name, localized_text, extension_object, data_value, variant, diagnostic_info, integer,
  custom, Value, bool_value, int_value, float_value, double_value, string_value, node_id_value,
  qualified_name_value, localized_text_value, UaVariant, empty, scalar, array, first_value,
  all_values, UaVariants,
}

-- The C++ types with specialisations of both `get` and `getDataType`, so that `is_a` and methods can
-- be instantiated at them. The vectors are std::vector<int> and std::vector<std::string>.
pub data CppType : Type 0 where
  bool_type float_type double_type string_type node_id_type : CppType
  qualified_name_type localized_text_type : CppType
  int_type : IntType → CppType
  int_vector_type string_vector_type : CppType

-- Their values.
pub data CppValue : Type 0 where
  cpp_bool : Bool → CppValue
  cpp_int : IntType → ℤ → CppValue
  cpp_float cpp_double : ℕ → CppValue
  cpp_string : Bytes → CppValue
  cpp_node_id : NodeId → CppValue
  cpp_qualified_name : QualifiedName → CppValue
  cpp_localized_text : LocalizedText → CppValue
  cpp_int_vector : List ℤ → CppValue
  cpp_string_vector : List Bytes → CppValue

abbrev pub type_of : CppValue → CppType
type_of (cpp_bool b) = bool_type
type_of (cpp_int t z) = int_type t
type_of (cpp_float x) = float_type
type_of (cpp_double x) = double_type
type_of (cpp_string s) = string_type
type_of (cpp_node_id id) = node_id_type
type_of (cpp_qualified_name qn) = qualified_name_type
type_of (cpp_localized_text lt) = localized_text_type
type_of (cpp_int_vector zs) = int_vector_type
type_of (cpp_string_vector ss) = string_vector_type

-- getDataType<T>(): `char` is int8_t, and `long` the integer type of its size. A vector has the
-- type of its elements.
unfoldable pub get_data_type : CppType → UaType
get_data_type bool_type = boolean
get_data_type float_type = float
get_data_type double_type = double
get_data_type string_type = string
get_data_type node_id_type = node_id
get_data_type qualified_name_type = qualified_name
get_data_type localized_text_type = localized_text
get_data_type (int_type t) = integer t
get_data_type int_vector_type = integer int32
get_data_type string_vector_type = string

-- toUAVariantImpl of a vector of one of the integer types
unfoldable pub vector_to_ua_variant : UaVariants → IntType → List ℤ → UaVariant
unfolding get_data_type
vector_to_ua_variant u k zs = u.set_array_copy (get_data_type (int_type k)) (map (int_value k) zs)

-- toUAVariant and the overloads of toUAVariantImpl: what the UA_Variant holds afterwards.
unfoldable pub to_ua_variant : UaVariants → UaText → CppValue → Outcome UaVariant
unfolding get_data_type vector_to_ua_variant
to_ua_variant u t (cpp_bool b) = ok (u.set_scalar_copy (get_data_type bool_type) (bool_value b))
to_ua_variant u t (cpp_int k z) =
    ok (u.set_scalar_copy (get_data_type (int_type k)) (int_value k z))
to_ua_variant u t (cpp_float x) = ok (u.set_scalar_copy (get_data_type float_type) (float_value x))
to_ua_variant u t (cpp_double x) =
    ok (u.set_scalar_copy (get_data_type double_type) (double_value x))
to_ua_variant u t (cpp_string s) =
    ok (u.set_scalar_copy (get_data_type string_type) (string_value s))
to_ua_variant u t (cpp_node_id id) = do
  ua_id ← from_node_id t id
  ok (u.set_scalar_copy (get_data_type node_id_type) (node_id_value ua_id))
to_ua_variant u t (cpp_qualified_name qn) = ok (
    u.set_scalar_copy (get_data_type qualified_name_type)
      (qualified_name_value (from_qualified_name t qn)))
to_ua_variant u t (cpp_localized_text lt) = ok (
    u.set_scalar_copy (get_data_type localized_text_type)
      (localized_text_value (from_localized_text t lt)))
to_ua_variant u t (cpp_int_vector zs) = ok (vector_to_ua_variant u int32 zs)
to_ua_variant u t (cpp_string_vector ss) =
    ok (u.set_array_copy (get_data_type string_type) (map string_value ss))

unfoldable pub int_type_eq : IntType → IntType → Bool
int_type_eq int8 int8 = true
int_type_eq uint8 uint8 = true
int_type_eq int16 int16 = true
int_type_eq uint16 uint16 = true
int_type_eq int32 int32 = true
int_type_eq uint32 uint32 = true
int_type_eq int64 int64 = true
int_type_eq uint64 uint64 = true
int_type_eq _ _ = false

-- One element read through a pointer to the C++ type; the element's own type must be that.
unfoldable pub read_int : IntType → Value → Outcome ℤ
unfolding int_type_eq
read_int k (int_value j z) = elim (int_type_eq k j) [ true ↦ ok z | false ↦ faults bad_access ]
read_int k _ = faults bad_access

unfoldable pub read_string : Value → Outcome Bytes
unfolding from_ua_string
read_string (string_value s) = ok (from_ua_string s)
read_string _ = faults bad_access

unfoldable pub read_localized_text : Value → Outcome LocalizedText
read_localized_text (localized_text_value lt) = ok (from_ua_localized_text lt)
read_localized_text _ = faults bad_access

unfoldable pub read_scalar : CppType → Value → Outcome CppValue
unfolding read_int read_string read_localized_text
read_scalar bool_type (bool_value b) = ok (cpp_bool b)
read_scalar float_type (float_value x) = ok (cpp_float x)
read_scalar double_type (double_value x) = ok (cpp_double x)
read_scalar string_type v = do s ← read_string v; ok (cpp_string s)
read_scalar node_id_type (node_id_value id) = ok (cpp_node_id (from_ua_node_id id))
read_scalar qualified_name_type (qualified_name_value qn) =
    ok (cpp_qualified_name (from_ua_qualified_name qn))
read_scalar localized_text_type v = do lt ← read_localized_text v; ok (cpp_localized_text lt)
read_scalar (int_type k) v = do z ← read_int k v; ok (cpp_int k z)
read_scalar _ _ = faults bad_access

-- The loop of the vector specialisations.
unfoldable pub read_all : {A : Type 0} → (Value → Outcome A) → List Value → Outcome (List A)
read_all f [] = ok []
read_all f (v ∷ vs) = do x ← f v; xs ← read_all f vs; ok (x ∷ xs)

-- The vectors of integers with a specialisation of `get`: of int, uint and uint64_t.
pub data VectorInt : Type 0 where
  of_int of_uint of_uint64 : VectorInt

abbrev pub element_type : VectorInt → IntType
element_type of_int = int32
element_type of_uint = uint32
element_type of_uint64 = uint64

-- Variant::get of those vectors
unfoldable pub get_int_vector : VectorInt → UaVariant → Outcome (List ℤ)
unfolding read_int read_all
get_int_vector e v = read_all (read_int (element_type e)) (all_values v)

-- Variant::get<T>()
unfoldable pub get : CppType → UaVariant → Outcome CppValue
unfolding read_scalar read_all get_int_vector
get int_vector_type v = do zs ← get_int_vector of_int v; ok (cpp_int_vector zs)
get string_vector_type v = do ss ← read_all read_string (all_values v); ok (cpp_string_vector ss)
get k v = do x ← first_value v; read_scalar k x

-- Variant::get<std::vector<LocalizedText>>(); no variant is made from such a vector.
unfoldable pub get_localized_texts : UaVariant → Outcome (List LocalizedText)
unfolding read_localized_text read_all
get_localized_texts v = read_all read_localized_text (all_values v)

-- == on two pointers to a UA_DataType
unfoldable pub ua_type_eq : UaType → UaType → Bool
unfolding int_type_eq
ua_type_eq boolean boolean = true
ua_type_eq float float = true
ua_type_eq double double = true
ua_type_eq string string = true
ua_type_eq date_time date_time = true
ua_type_eq guid guid = true
ua_type_eq byte_string byte_string = true
ua_type_eq xml_element xml_element = true
ua_type_eq node_id node_id = true
ua_type_eq expanded_node_id expanded_node_id = true
ua_type_eq status_code status_code = true
ua_type_eq qualified_name qualified_name = true
ua_type_eq localized_text localized_text = true
ua_type_eq extension_object extension_object = true
ua_type_eq data_value data_value = true
ua_type_eq variant variant = true
ua_type_eq diagnostic_info diagnostic_info = true
ua_type_eq (integer j) (integer k) = int_type_eq j k
ua_type_eq (custom m) (custom n) = m == n
ua_type_eq _ _ = false

-- Variant::is_a<T>()
unfoldable pub is_a : CppType → UaVariant → Bool
unfolding ua_type_eq get_data_type
is_a k empty = false
is_a k (scalar t v) = ua_type_eq t (get_data_type k)
is_a k (array t vs) = ua_type_eq t (get_data_type k)
