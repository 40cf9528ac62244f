-- ===== src/TypeGenerator/Emit.antt =====
-- The texts that class TypeGenerator writes (TypeGenerator/TypeGenerator.h,
-- TypeGenerator/ConversionFrom.h and the conversions of TypeGenerator/types). Each function gives
-- what it appends to one of the two streams.
use modern_opc.Base.{
  ℕ, suc, Bool, true, false, if◌then◌else◌, leb, ◌&&◌, ◌+◌, ◌-◌, Bytes, text, ℤ, pos, negsuc,
  Outcome, ok, faults, null_dereference, ◌>>=◌, List, [], ◌∷◌, ◌++◌, none, some, decimal_int, map,
}
use modern_opc.TypeGenerator.Ids.{GenIdentifier, gen_int, gen_string}
use modern_opc.TypeGenerator.DataTypes.{
  StructureDefinitionField, EnumDefinitionField, DataType, base_data_type, enum_data_type,
  structure_data_type, Types, find_type, name_of,
}

-- std::toupper and std::tolower of the C locale
unfoldable pub to_upper : ℕ → ℕ
to_upper c = if leb b'a' c && leb c b'z' then c - 32 else c

unfoldable pub to_lower : ℕ → ℕ
to_lower c = if leb b'A' c && leb c b'Z' then c + 32 else c

-- str_toupper
unfoldable pub str_toupper : Bytes → Bytes
unfolding to_upper
str_toupper s = map to_upper s

-- firstToLow. On an empty text it writes the terminating NUL over itself.
unfoldable pub first_to_low : Bytes → Bytes
unfolding to_lower
first_to_low [] = []
first_to_low (c ∷ s) = to_lower c ∷ s

abbrev pub concat_texts : List Bytes → Bytes
concat_texts [] = []
concat_texts (s ∷ ss) = s ++ concat_texts ss

-- field.valueRank > 0 and field.valueRank > -1
abbrev pub is_positive : ℤ → Bool
is_positive (pos (suc n)) = true
is_positive _ = false

abbrev pub is_natural : ℤ → Bool
is_natural (pos n) = true
is_natural _ = false

-- openNamespace
unfoldable pub open_namespace_header : Bytes → Bytes
open_namespace_header target = concat_texts (text "namespace " ∷ target ∷ text " {\n" ∷ [])

unfoldable pub open_namespace_impl : Bytes → Bytes
open_namespace_impl target = concat_texts (text "namespace " ∷ target ∷ text " {" ∷ [])

-- addIncludes
unfoldable pub includes_header : Bytes
includes_header = text "#pragma once\n#include <string>\n#include <opc/types/LocalizedText.h>\n"

unfoldable pub includes_impl : Bytes
includes_impl =
    text "#include <generated.h>\n#include <opc/Variant.h>\n#include <opc/types/StdTypes.h>\n"
    ++ text "#include <opc/types/NodeId.h>\n#include <opc/types/QualifiedName.h>\n"

-- std::get<int>(id.getIdentifier()) <= 11, of a numeric id
abbrev is_small : GenIdentifier → Bool
is_small (gen_int (pos n)) = leb n 11
is_small (gen_int (negsuc n)) = true
is_small (gen_string s) = false

-- getScalarConversion and getArrayConversion of the three classes
unfoldable pub scalar_conversion : DataType → Bytes → Bytes
scalar_conversion (structure_data_type name id fs) n =
    if is_small id.i
    then concat_texts (text " static_cast<UA_" ∷ name ∷ text ">(val." ∷ n ∷ text ");\n" ∷ [])
    else concat_texts (text "from" ∷ name ∷ text "(" ∷ text "val." ∷ n ∷ text ");\n" ∷ [])
scalar_conversion (enum_data_type name id fs) n =
    concat_texts (text "static_cast<UA_" ∷ name ∷ text ">(val." ∷ n ∷ text ");" ∷ text "\n" ∷ [])
scalar_conversion (base_data_type name id) n =
    concat_texts (text "static_cast<UA_" ∷ name ∷ text ">(val." ∷ n ∷ text ");" ∷ text "\n" ∷ [])

unfoldable pub array_conversion : DataType → Bytes → Bytes
array_conversion (structure_data_type name id fs) n =
    concat_texts (text "from" ∷ name ∷ text "(" ∷ text "val." ∷ n ∷ text "[i]);\n" ∷ [])
array_conversion (enum_data_type name id fs) n =
    concat_texts (text "static_cast<UA_" ∷ name ∷ text ">(val." ∷ n ∷ text "[i]);" ∷ text "\n" ∷ [])
array_conversion (base_data_type name id) n =
    concat_texts (text "static_cast<UA_" ∷ name ∷ text ">(val." ∷ n ∷ text "[i]);" ∷ text "\n" ∷ [])

-- The lines for an array field, the same in both addFromConversionFunction
unfoldable pub array_field : DataType → Bytes → Bytes
unfolding array_conversion str_toupper
array_field t n = concat_texts (
    text "uaval."
    ∷ n
    ∷ text "Size = val."
    ∷ n
    ∷ text ".size();"
    ∷ text "\n"
    ∷ text "uaval."
    ∷ n
    ∷ text " = static_cast<UA_"
    ∷ name_of t
    ∷ text "*>(UA_Array_new(val."
    ∷ n
    ∷ text ".size(), &UA_TYPES[UA_TYPES_"
    ∷ str_toupper (name_of t)
    ∷ text "]));"
    ∷ text "\n"
    ∷ text "for(auto i=0; i<"
    ∷ text "val."
    ∷ n
    ∷ text ".size(); i++){"
    ∷ text "uaval."
    ∷ n
    ∷ text "[i] = "
    ∷ array_conversion t n
    ∷ text "}"
    ∷ text "\n"
    ∷ [])

-- addFromConversionFunction(const EnumDefinitionField &)
unfoldable pub enum_from_conversion : Types → EnumDefinitionField → Bytes
unfolding array_field scalar_conversion first_to_low
enum_from_conversion ts f = elim (find_type f.data_type ts) [
  | none ↦ []
  | some t ↦
      if is_positive f.value_rank
      then array_field t (first_to_low f.name)
      else scalar_conversion t (first_to_low f.name)
]

-- addFromConversionFunction(const StructureDefinitionField &), which does not test what find gives
unfoldable pub structure_from_conversion : Types → StructureDefinitionField → Outcome Bytes
unfolding array_field scalar_conversion first_to_low
structure_from_conversion ts f = elim (find_type f.data_type ts) [
  | none ↦ faults null_dereference
  | some t ↦ ok (
      if is_positive f.value_rank
      then array_field t (first_to_low f.name)
      else concat_texts (
          text "uaval."
          ∷ first_to_low f.name
          ∷ text " = "
          ∷ scalar_conversion t (first_to_low f.name)
          ∷ []))
]

-- The loop over the fields of a structure.
unfoldable pub structure_conversions : Types → List StructureDefinitionField → Outcome Bytes
unfolding structure_from_conversion
structure_conversions ts [] = ok []
structure_conversions ts (f ∷ fs) = do
  s ← structure_from_conversion ts f
  rest ← structure_conversions ts fs
  ok (s ++ rest)

unfoldable pub enum_conversions : Types → List EnumDefinitionField → Bytes
unfolding enum_from_conversion
enum_conversions ts [] = []
enum_conversions ts (f ∷ fs) = enum_from_conversion ts f ++ enum_conversions ts fs

-- addPrivateMember: the member of one field
unfoldable pub private_member : Types → StructureDefinitionField → Bytes
unfolding first_to_low
private_member ts f = elim (find_type f.data_type ts) [
  | none ↦ text "unknown type\n"
  | some t ↦
      if is_natural f.value_rank
      then concat_texts (
          text "std::vector<"
          ∷ name_of t
          ∷ text ">"
          ∷ text " "
          ∷ first_to_low f.name
          ∷ text ";\n"
          ∷ [])
      else concat_texts (name_of t ∷ text " " ∷ first_to_low f.name ∷ text ";\n" ∷ [])
]

-- addEnumOrdinals: the line of one field
unfoldable pub enum_ordinal : Bytes → EnumDefinitionField → Bytes
unfolding str_toupper
enum_ordinal name f = concat_texts (
    str_toupper name
    ∷ text "_"
    ∷ str_toupper f.name
    ∷ text " = "
    ∷ decimal_int f.value
    ∷ text ","
    ∷ text "\n"
    ∷ [])

-- addConversionDecl of a structure and of an enum
unfoldable pub structure_conversion_decl : Bytes → Bytes
structure_conversion_decl name = concat_texts (
    text "friend void toUAVariantImpl(const "
    ∷ name
    ∷ text "& val, UA_Variant *var);\n\n"
    ∷ text "friend const UA_"
    ∷ name
    ∷ text " from"
    ∷ name
    ∷ text "(const "
    ∷ name
    ∷ text "& val);"
    ∷ text "\n"
    ∷ [])

unfoldable pub enum_conversion_decl : Bytes → Bytes
enum_conversion_decl name = concat_texts (
    text "void toUAVariantImpl(const "
    ∷ name
    ∷ text "& val, UA_Variant *var);\n\n"
    ∷ text "const UA_"
    ∷ name
    ∷ text " from"
    ∷ name
    ∷ text "(const "
    ∷ name
    ∷ text "& val);"
    ∷ text "\n"
    ∷ [])

-- addDataTypeTemplate
unfoldable pub data_type_template : Bytes → Bytes
unfolding str_toupper
data_type_template name = concat_texts (
    text "template<>"
    ∷ text "\n"
    ∷ text "inline const UA_DataType* getDataType<"
    ∷ name
    ∷ text ">() {"
    ∷ text "\n"
    ∷ text "return &UA_TYPES[UA_TYPES_"
    ∷ str_toupper name
    ∷ text "];"
    ∷ text "\n"
    ∷ text "}"
    ∷ text "\n"
    ∷ [])
