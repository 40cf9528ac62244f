-- ===== src/Variant.antt =====
-- The contents of a UA_Variant, and what modernopc/include/modernopc/Variant.h and DataType.h read
-- of it. The functions of open62541 on a UA_Variant are parameters.
pub mod Access
pub mod Shown
pub mod Compare
pub mod Ownership
pub mod Tests
use modern_opc.Base.{
  ℕ, ◌≡◌, Bool, true, false, not, Bytes, List, [], ◌∷◌, ℤ, Outcome, ok, faults, null_dereference,
  bad_access, length,
}
use modern_opc.Types.Guid.{Guid}
use modern_opc.Types.NodeId.{UaNodeId}
use modern_opc.Types.UaText.{UaQualifiedName, UaLocalizedText}

-- The integer types of C++ that have an OPC UA type.
pub data IntType : Type 0 where
  int8 uint8 int16 uint16 int32 uint32 int64 uint64 : IntType

-- The address of a UA_DataType: &UA_TYPES[UA_TYPES_…] under its name, or another type's.
pub data UaType : Type 0 where
  boolean float double string date_time guid byte_string xml_element : UaType
  node_id expanded_node_id status_code qualified_name localized_text : UaType
  extension_object data_value variant diagnostic_info : UaType
  integer : IntType → UaType
  custom : ℕ → UaType

pub record UaExpandedNodeId : Type 0 where
  pub node_id : UaNodeId
  pub namespace_uri : Bytes
  pub server_index : ℕ

-- One element of the memory that `data` points to. A float is its bit pattern. `opaque` stands for
-- a value of a type that the class never looks into.
pub data Value : Type 0 where
  bool_value : Bool → Value
  int_value : IntType → ℤ → Value
  float_value double_value : ℕ → Value
  string_value : Bytes → Value
  guid_value : Guid → Value
  node_id_value : UaNodeId → Value
  expanded_node_id_value : UaExpandedNodeId → Value
  qualified_name_value : UaQualifiedName → Value
  localized_text_value : UaLocalizedText → Value
  opaque : ℕ → Value

-- A UA_Variant: no type; a type and a pointer to one value, arrayLength 0; or a type and
-- arrayLength values.
pub data UaVariant : Type 0 where
  empty : UaVariant
  scalar : UaType → Value → UaVariant
  array : UaType → List Value → UaVariant

-- variant->arrayLength
abbrev pub array_length : UaVariant → ℕ
array_length (array t vs) = length vs
array_length _ = 0

-- *variant->data. An empty array's `data` is a sentinel that may not be read.
unfoldable pub first_value : UaVariant → Outcome Value
first_value empty = faults null_dereference
first_value (scalar t v) = ok v
first_value (array t []) = faults bad_access
first_value (array t (v ∷ vs)) = ok v

-- The range from data to data + arrayLength.
abbrev pub all_values : UaVariant → List Value
all_values (array t vs) = vs
all_values _ = []

-- UA_Variant_isEmpty, UA_Variant_isScalar, UA_Variant_setScalarCopy and UA_Variant_setArrayCopy.
pub record UaVariants : Type 0 where
  pub is_empty : UaVariant → Bool
  pub is_scalar : UaVariant → Bool
  pub set_scalar_copy : UaType → Value → UaVariant
  pub set_array_copy : UaType → List Value → UaVariant

abbrev pub has_type : UaVariant → Bool
has_type empty = false
has_type _ = true

abbrev pub holds_scalar : UaVariant → Bool
holds_scalar (scalar t v) = true
holds_scalar _ = false

-- What open62541 documents of them.
pub record AreVariants (u : UaVariants) : Type 0 where
  pub is_empty_lem : (v : UaVariant) → u.is_empty v ≡ not (has_type v)
  pub is_scalar_lem : (v : UaVariant) → u.is_scalar v ≡ holds_scalar v
  pub set_scalar_copy_lem : (t : UaType) (v : Value) → u.set_scalar_copy t v ≡ scalar t v
  pub set_array_copy_lem : (t : UaType) (vs : List Value) → u.set_array_copy t vs ≡ array t vs
