-- ===== src/TypeGenerator/Classes.antt =====
-- generate of the data types and TypeGenerator::generateClass (TypeGenerator/TypeGenerator.h,
-- TypeGenerator/types).
pub mod Laws
pub mod Texts
use modern_opc.Base.{
  ℕ, Bool, true, false, if◌then◌else◌, Bytes, text, Outcome, ok, faults, null_dereference, ◌>>=◌,
  List, [], ◌∷◌, ◌++◌, Option, none, some, map,
}
use modern_opc.TypeGenerator.Ids.{GenNodeId, gen_node_id_eq}
use modern_opc.TypeGenerator.DataTypes.{
  StructureDefinitionField, EnumDefinitionField, DataType, base_data_type, enum_data_type,
  structure_data_type, Types, find_type,
}
use modern_opc.TypeGenerator.Order.{build_order}
use modern_opc.TypeGenerator.Emit.{
  concat_texts, str_toupper, structure_conversions, enum_conversions, private_member, enum_ordinal,
  structure_conversion_decl, enum_conversion_decl, data_type_template, includes_header,
  includes_impl, open_namespace_header, open_namespace_impl,
}

-- The two streams of a TypeGenerator.
pub record Streams : Type 0 where
  pub header : Bytes
  pub impl : Bytes

abbrev pub append_both : Streams → Bytes → Bytes → Streams
append_both s h i = record { header = s.header ++ h; impl = s.impl ++ i }

-- toUAVariantImpl and from… of a structure, as addImpl writes them
unfoldable pub structure_impl : Types → Bytes → List StructureDefinitionField → Outcome Bytes
unfolding structure_conversions
structure_impl ts name fs = do
  body ← structure_conversions ts fs
  ok (
      concat_texts (
        text "void toUAVariantImpl(const "
        ∷ name
        ∷ text "& val, UA_Variant *var)\n{\n"
        ∷ text "UA_"
        ∷ name
        ∷ text " uaval;\n"
        ∷ body
        ∷ text "UA_Variant_setScalarCopy(var, &uaval, &UA_TYPES[UA_TYPES_"
        ∷ str_toupper name
        ∷ text "]);\n"
        ∷ text "}\n\n"
        ∷ text "const UA_"
        ∷ name
        ∷ text " from"
        ∷ name
        ∷ text "(const "
        ∷ name
        ∷ text " &val) {"
        ∷ text "\n"
        ∷ text "UA_"
        ∷ name
        ∷ text " uaval;\n"
        ∷ body
        ∷ text "return uaval;"
        ∷ text "\n"
        ∷ text "}\n\n"
        ∷ []))

unfoldable pub enum_impl : Types → Bytes → List EnumDefinitionField → Bytes
unfolding enum_conversions
enum_impl ts name fs = concat_texts (
    text "void toUAVariantImpl(const "
    ∷ name
    ∷ text "& val, UA_Variant *var)\n{\n"
    ∷ text "UA_Int32 uaval = static_cast<UA_"
    ∷ name
    ∷ text ">(val);\n"
    ∷ text "UA_Variant_setScalarCopy(var, &uaval, &UA_TYPES[UA_TYPES_INT32]);\n"
    ∷ text "}\n\n"
    ∷ text "const UA_"
    ∷ name
    ∷ text " from"
    ∷ name
    ∷ text "(const "
    ∷ name
    ∷ text " &val) {"
    ∷ text "\n"
    ∷ text "UA_"
    ∷ name
    ∷ text " uaval;\n"
    ∷ enum_conversions ts fs
    ∷ text "return uaval;"
    ∷ text "\n"
    ∷ text "}\n\n"
    ∷ [])

-- openHeader, addHeader, closeHeader and afterHeader
unfoldable pub structure_header : Types → Bytes → List StructureDefinitionField → Bytes
unfolding structure_conversion_decl private_member data_type_template
structure_header ts name fs = concat_texts (
    text "class "
    ∷ name
    ∷ text "\n"
    ∷ text "{\npublic:\n"
    ∷ structure_conversion_decl name
    ∷ text "public:\n"
    ∷ concat_texts (map (private_member ts) fs)
    ∷ text "};\n\n"
    ∷ data_type_template name
    ∷ [])

unfoldable pub enum_header : Bytes → List EnumDefinitionField → Bytes
unfolding enum_ordinal enum_conversion_decl
enum_header name fs = concat_texts (
    text "enum class "
    ∷ name
    ∷ text "\n"
    ∷ text "{\n"
    ∷ concat_texts (map (enum_ordinal name) fs)
    ∷ text "};\n\n"
    ∷ enum_conversion_decl name
    ∷ [])

-- DataType::generate: what it appends to the two streams
unfoldable pub generate : Types → DataType → Outcome Streams
unfolding structure_impl enum_impl structure_header enum_header
generate ts (base_data_type name id) = ok (record { header = []; impl = [] })
generate ts (enum_data_type name id fs) =
    ok (record { header = enum_header name fs; impl = enum_impl ts name fs })
generate ts (structure_data_type name id fs) = do
  impl ← structure_impl ts name fs
  ok (record { header = structure_header ts name fs; impl = impl })

-- generated.find(id) != generated.end()
unfoldable pub is_generated : GenNodeId → List GenNodeId → Bool
is_generated id [] = false
is_generated id (g ∷ gs) = if gen_node_id_eq g id then true else is_generated id gs

pub record TypeGenerator : Type 0 where
  pub generated : List GenNodeId
  pub streams : Streams

-- TypeGenerator::TypeGenerator, which opens the namespace
unfoldable pub construct_generator : Bytes → TypeGenerator
unfolding open_namespace_header open_namespace_impl
construct_generator target = record {
  generated = [];
  streams = record { header = open_namespace_header target; impl = open_namespace_impl target };
}

-- t->second->generate(*this); generated.emplace(id);
unfoldable pub generate_one : Types → GenNodeId → TypeGenerator → Outcome TypeGenerator
unfolding generate
generate_one ts id g = elim (find_type id ts) [
  | none ↦ faults null_dereference
  | some t ↦ do
    s ← generate ts t
    ok (record { generated = id ∷ g.generated; streams = append_both g.streams s.header s.impl })
]

-- The loop of generateClass.
unfoldable pub generate_ordered : Types → List GenNodeId → TypeGenerator → Outcome TypeGenerator
unfolding is_generated generate_one
generate_ordered ts [] g = ok g
generate_ordered ts (id ∷ ids) g = do
  h ← (if is_generated id g.generated then ok g else generate_one ts id g)
  generate_ordered ts ids h

-- TypeGenerator::generateClass; `none` if the fuel of buildOrder does not suffice
unfoldable pub generate_class :
    ℕ → Types → DataType → TypeGenerator → Option (Outcome TypeGenerator)
unfolding build_order generate_ordered includes_header includes_impl
generate_class fuel ts t g = elim (build_order fuel ts t []) [
  | none ↦ none
  | some (false, order) ↦ some (ok g)
  | some (true, order) ↦ some (
      generate_ordered ts order
        (record g { streams = append_both g.streams includes_header includes_impl }))
]

-- finish, which closes the namespace
unfoldable pub finish : TypeGenerator → TypeGenerator
finish g = record g { streams = append_both g.streams (text "}\n") (text "}") }
