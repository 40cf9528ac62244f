-- ===== src/TypeGenerator/Classes/Texts.antt =====
-- What the loop of generateClass (TypeGenerator/TypeGenerator.h) appends to the streams.
use modern_opc.Base.{
  ◌≡◌, if◌then◌else◌, Bytes, text, Outcome, ok, List, [], ◌∷◌, ◌++◌, map, Option, none, some,
}
use modern_opc.TypeGenerator.Ids.{GenNodeId}
use modern_opc.TypeGenerator.DataTypes.{
  StructureDefinitionField, DataType, base_data_type, enum_data_type, structure_data_type, Types,
  find_type,
}
use modern_opc.TypeGenerator.Emit.{
  concat_texts, str_toupper, structure_conversions, enum_conversions, private_member, enum_ordinal,
  structure_conversion_decl, enum_conversion_decl, data_type_template,
}
use modern_opc.TypeGenerator.Classes.{Streams, is_generated, TypeGenerator}

-- The ids of the order that were not generated before, each once.
abbrev pub fresh : List GenNodeId → List GenNodeId → List GenNodeId
fresh gs [] = []
fresh gs (id ∷ ids) = if is_generated id gs then fresh gs ids else id ∷ fresh (id ∷ gs) ids

-- What the classes are to read, written out: `header_of` in the header, `impl_of` in the other stream.
pub header_of : Types → DataType → Bytes
header_of ts (base_data_type name id) = []
header_of ts (enum_data_type name id fs) =
    text "enum class "
    ++ (name
        ++ (text "\n{\n"
            ++ (concat_texts (map (enum_ordinal name) fs)
                ++ (text "};\n\n" ++ enum_conversion_decl name))))
header_of ts (structure_data_type name id fs) =
    text "class "
    ++ (name
        ++ (text "\n{\npublic:\n"
            ++ (structure_conversion_decl name
                ++ (text "public:\n"
                    ++ (concat_texts (map (private_member ts) fs)
                        ++ (text "};\n\n" ++ data_type_template name))))))

-- The function that makes a UA_ object of a value; `body` sets its fields.
pub from_function : Bytes → Bytes → Bytes
from_function name body =
    text "const UA_"
    ++ (name
        ++ (text " from"
            ++ (name
                ++ (text "(const "
                    ++ (name
                        ++ (text " &val) {\nUA_"
                            ++ (name
                                ++ (text " uaval;\n"
                                    ++ (body ++ text "return uaval;\n}\n\n")))))))))

pub impl_with : Types → DataType → Bytes → Bytes
impl_with ts (base_data_type name id) body = []
impl_with ts (enum_data_type name id fs) body =
    text "void toUAVariantImpl(const "
    ++ (name
        ++ (text "& val, UA_Variant *var)\n{\nUA_Int32 uaval = static_cast<UA_"
            ++ (name
                ++ (text
                      ">(val);\nUA_Variant_setScalarCopy(var, &uaval, &UA_TYPES[UA_TYPES_INT32]);\n}\n\n"
                    ++ from_function name (enum_conversions ts fs)))))
impl_with ts (structure_data_type name id fs) body =
    text "void toUAVariantImpl(const "
    ++ (name
        ++ (text "& val, UA_Variant *var)\n{\nUA_"
            ++ (name
                ++ (text " uaval;\n"
                    ++ (body
                        ++ (text "UA_Variant_setScalarCopy(var, &uaval, &UA_TYPES[UA_TYPES_"
                            ++ (str_toupper name
                                ++ (text "]);\n}\n\n" ++ from_function name body))))))))

-- The lines for the fields of a structure, when all their types are known.
abbrev pub value_or_empty : Outcome Bytes → Bytes
value_or_empty (ok s) = s
value_or_empty _ = []

abbrev pub fields_of : DataType → List StructureDefinitionField
fields_of (structure_data_type name id fs) = fs
fields_of _ = []

pub impl_of : Types → DataType → Bytes
impl_of ts t = impl_with ts t (value_or_empty (structure_conversions ts (fields_of t)))

abbrev pub of_found : (DataType → Bytes) → Option DataType → Bytes
of_found f none = []
of_found f (some t) = f t

abbrev pub headers : Types → List GenNodeId → Bytes
headers ts ids = concat_texts (map (λ id. of_found (header_of ts) (find_type id ts)) ids)

abbrev pub impls : Types → List GenNodeId → Bytes
impls ts ids = concat_texts (map (λ id. of_found (impl_of ts) (find_type id ts)) ids)

-- From the streams `s` to the streams `r` the texts of these classes were appended, in this order.
abbrev pub Wrote : Types → List GenNodeId → Streams → Streams → Type 0
Wrote ts ids s r = (r.header ≡ s.header ++ headers ts ids) × (r.impl ≡ s.impl ++ impls ts ids)

-- One class: its id is generated, and its texts were appended.
abbrev WroteOne : Types → GenNodeId → TypeGenerator → TypeGenerator → Type 0
WroteOne ts id g k =
    (k.generated ≡ id ∷ g.generated)
    × (k.streams.header ≡ g.streams.header ++ of_found (header_of ts) (find_type id ts))
    × (k.streams.impl ≡ g.streams.impl ++ of_found (impl_of ts) (find_type id ts))
