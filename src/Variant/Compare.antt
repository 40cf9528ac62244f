-- ===== src/Variant/Compare.antt =====
-- Variant::operator== and its table of comparisons: modernopc/src/Variant.cpp. The comparisons of
-- open62541 are parameters, and so is the kind of a type.
pub mod Arrays
pub mod Scalars
use modern_opc.Base.{
  ◌+◌, ◌-◌, ℕ, ◌%◌, ◌/◌, ◌^◌, ◌≡◌, ◌↔◌, Bool, true, false, not, ◌&&◌, ◌||◌, ◌==◌, if◌then◌else◌,
  Bytes, List, [], ◌∷◌, ℤ, int_eq, Option, none, some, get_elem?, Outcome, ok, faults,
  assertion_failed, bad_access, out_of_bounds, ◌>>=◌,
}
use modern_opc.Types.Guid.{Guid}
use modern_opc.Types.NodeId.{UaNodeId}
use modern_opc.Types.UaText.{UaQualifiedName}
use modern_opc.Variant.{
  IntType, int8, uint8, int16, uint16, int32, uint32, int64, uint64, UaType, boolean, float, double,
  string, date_time, guid, byte_string, xml_element, node_id, expanded_node_id, status_code,
  qualified_name, localized_text, extension_object, data_value, variant, diagnostic_info, integer,
  custom, UaExpandedNodeId, Value, bool_value, int_value, float_value, double_value, string_value,
  guid_value, node_id_value, expanded_node_id_value, qualified_name_value, localized_text_value,
  UaVariant, empty, scalar, array, array_length, first_value, UaVariants,
}
use modern_opc.Variant.Access.{int_type_eq, ua_type_eq}

-- UA_String_equal, UA_Guid_equal, UA_NodeId_equal, UA_ExpandedNodeId_equal and
-- UA_QualifiedName_equal.
pub record UaEqual : Type 0 where
  pub string_equal : Bytes → Bytes → Bool
  pub guid_equal : Guid → Guid → Bool
  pub node_id_equal : UaNodeId → UaNodeId → Bool
  pub expanded_node_id_equal : UaExpandedNodeId → UaExpandedNodeId → Bool
  pub qualified_name_equal : UaQualifiedName → UaQualifiedName → Bool

-- Each compares by value.
pub record DecideEqual (e : UaEqual) : Type 0 where
  pub string_equal_iff : (a b : Bytes) → (e.string_equal a b ≡ true) ↔ (a ≡ b)
  pub guid_equal_iff : (a b : Guid) → (e.guid_equal a b ≡ true) ↔ (a ≡ b)
  pub node_id_equal_iff : (a b : UaNodeId) → (e.node_id_equal a b ≡ true) ↔ (a ≡ b)
  pub expanded_node_id_equal_iff :
      (a b : UaExpandedNodeId) → (e.expanded_node_id_equal a b ≡ true) ↔ (a ≡ b)
  pub qualified_name_equal_iff :
      (a b : UaQualifiedName) → (e.qualified_name_equal a b ≡ true) ↔ (a ≡ b)

-- == of IEEE 754 on bit patterns with `m` fraction bits below `x` exponent bits: a NaN equals
-- nothing, and the two zeros are equal.
is_nan : ℕ → ℕ → ℕ → Bool
is_nan m x w = (w / 2 ^ m) % 2 ^ x == 2 ^ x - 1 && not (w % 2 ^ m == 0)

ieee_eq : ℕ → ℕ → ℕ → ℕ → Bool
unfolding is_nan
ieee_eq m x a b =
    not (is_nan m x a)
    && (not (is_nan m x b) && (a == b || (a % 2 ^ (m + x) == 0 && b % 2 ^ (m + x) == 0)))

abbrev pub CmpFn : Type 0
CmpFn = Value → Value → Outcome Bool

-- UAPrimitive_equal<T> for bool and the integer types, by their own ==
unfoldable pub bool_equal : CmpFn
bool_equal (bool_value true) (bool_value true) = ok true
bool_equal (bool_value false) (bool_value false) = ok true
bool_equal (bool_value a) (bool_value b) = ok false
bool_equal _ _ = faults bad_access

unfoldable pub int_equal : IntType → CmpFn
unfolding int_type_eq
int_equal k (int_value i a) (int_value j b) =
    if int_type_eq k i && int_type_eq k j then ok (int_eq a b) else faults bad_access
int_equal k _ _ = faults bad_access

unfoldable pub float_equal : CmpFn
unfolding ieee_eq
float_equal (float_value a) (float_value b) = ok (ieee_eq 23 8 a b)
float_equal _ _ = faults bad_access

unfoldable pub double_equal : CmpFn
unfolding ieee_eq
double_equal (double_value a) (double_value b) = ok (ieee_eq 52 11 a b)
double_equal _ _ = faults bad_access

-- UAPrimitive_equal<UA_ExtensionObject> and the others that are not implemented
unfoldable pub not_implemented : CmpFn
not_implemented a b = faults assertion_failed

module _ (e : UaEqual) where
  -- UAPrimitive_equal<UA_String>, UAPrimitive_equal_ByteString, UAPrimitive_equal_XmlElement
  unfoldable pub string_equal : CmpFn
  string_equal (string_value a) (string_value b) = ok (e.string_equal a b)
  string_equal _ _ = faults bad_access

  unfoldable pub guid_equal : CmpFn
  guid_equal (guid_value a) (guid_value b) = ok (e.guid_equal a b)
  guid_equal _ _ = faults bad_access

  unfoldable pub node_id_equal : CmpFn
  node_id_equal (node_id_value a) (node_id_value b) = ok (e.node_id_equal a b)
  node_id_equal _ _ = faults bad_access

  unfoldable pub expanded_node_id_equal : CmpFn
  expanded_node_id_equal (expanded_node_id_value a) (expanded_node_id_value b) =
      ok (e.expanded_node_id_equal a b)
  expanded_node_id_equal _ _ = faults bad_access

  unfoldable pub qualified_name_equal : CmpFn
  qualified_name_equal (qualified_name_value a) (qualified_name_value b) =
      ok (e.qualified_name_equal a b)
  qualified_name_equal _ _ = faults bad_access

  -- UAPrimitive_equal<UA_LocalizedText>
  unfoldable pub localized_text_equal : CmpFn
  localized_text_equal (localized_text_value a) (localized_text_value b) =
      ok (e.string_equal a.locale b.locale && e.string_equal a.text b.text)
  localized_text_equal _ _ = faults bad_access

  -- CMP_TABLE, by the kind of the type
  unfoldable pub cmp_table : List CmpFn
  unfolding bool_equal int_equal float_equal double_equal not_implemented string_equal guid_equal
      node_id_equal expanded_node_id_equal qualified_name_equal localized_text_equal
  cmp_table =
      bool_equal
      ∷ int_equal int8
      ∷ int_equal uint8
      ∷ int_equal int16
      ∷ int_equal uint16
      ∷ int_equal int32
      ∷ int_equal uint32
      ∷ int_equal int64
      ∷ int_equal uint64
      ∷ float_equal
      ∷ double_equal
      ∷ string_equal
      ∷ int_equal int64
      ∷ guid_equal
      ∷ string_equal
      ∷ string_equal
      ∷ node_id_equal
      ∷ expanded_node_id_equal
      ∷ int_equal uint32
      ∷ qualified_name_equal
      ∷ localized_text_equal
      ∷ not_implemented
      ∷ not_implemented
      ∷ not_implemented
      ∷ not_implemented
      ∷ not_implemented
      ∷ not_implemented
      ∷ not_implemented
      ∷ not_implemented
      ∷ not_implemented
      ∷ not_implemented
      ∷ []

-- variant->type; `none` is the null pointer.
abbrev pub type_ptr : UaVariant → Option UaType
type_ptr empty = none
type_ptr (scalar t v) = some t
type_ptr (array t vs) = some t

abbrev pub type_ptr_eq : Option UaType → Option UaType → Bool
type_ptr_eq none none = true
type_ptr_eq (some a) (some b) = ua_type_eq a b
type_ptr_eq _ _ = false

-- type->typeKind, an index into the table
pub record UaKinds : Type 0 where
  pub kind_of : UaType → ℕ

-- The last line: CMP_TABLE[variant->type->typeKind](variant->data, other->data).
unfoldable pub compare_data : UaEqual → UaKinds → UaVariant → UaVariant → Outcome Bool
unfolding cmp_table first_value
compare_data e k a b = elim (type_ptr a) [
  | none ↦ faults bad_access
  | some t ↦ elim (get_elem? (cmp_table e) (k.kind_of t)) [
    | none ↦ faults out_of_bounds
    | some cmp ↦ do x ← first_value a; y ← first_value b; cmp x y
  ]
]

-- == on bool
abbrev pub bool_eq : Bool → Bool → Bool
bool_eq true b = b
bool_eq false b = not b

-- Variant::operator==
unfoldable pub variant_eq : UaVariants → UaEqual → UaKinds → UaVariant → UaVariant → Outcome Bool
unfolding compare_data ua_type_eq
variant_eq u e k a b =
    if not (bool_eq (u.is_empty a) (u.is_empty b))
    then ok false
    else if u.is_empty a
    then ok true
    else if not (bool_eq (u.is_scalar a) (u.is_scalar b))
    then ok false
    else if not (type_ptr_eq (type_ptr a) (type_ptr b))
    then ok false
    else if not (array_length a == array_length b)
    then ok false
    else compare_data e k a b
