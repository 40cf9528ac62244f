-- ===== src/TypeGenerator/DataTypes.antt =====
-- The data types of a nodeset (TypeGenerator/types/DataType.h, EnumDataType.h), the map of them,
-- and addNode (TypeGenerator/backend.cpp), which fills it.
pub mod Laws
use modern_opc.Base.{
  ℕ, ◌≡◌, ◌≢◌, refl, Bool, true, false, if◌then◌else◌, Bytes, text, ℤ, pos, Outcome, ok, faults,
  null_dereference, ◌>>=◌, List, [], ◌∷◌, ◌++◌, Option, none, some, decimal_int, All,
}
use modern_opc.TypeGenerator.Ids.{
  GenNodeId, gen_numeric_id, gen_node_id_eq, print_gen_node_id, extract_node_id,
}

pub record StructureDefinitionField : Type 0 where
  pub name : Bytes
  pub value_rank : ℤ
  pub data_type : GenNodeId

pub record EnumDefinitionField : Type 0 where
  pub name : Bytes
  pub value_rank : ℤ
  pub data_type : GenNodeId
  pub value : ℤ

-- operator<< of the two kinds of field
unfoldable pub print_structure_field : StructureDefinitionField → Bytes
print_structure_field f =
    text "name="
    ++ f.name
    ++ text ";id="
    ++ print_gen_node_id f.data_type
    ++ text ";valueRank="
    ++ decimal_int f.value_rank

unfoldable pub print_enum_field : EnumDefinitionField → Bytes
print_enum_field f =
    text "name="
    ++ f.name
    ++ text ";id="
    ++ print_gen_node_id f.data_type
    ++ text "value="
    ++ decimal_int f.value

-- The classes derived from DataType, with their name, id and fields.
pub data DataType : Type 0 where
  base_data_type : Bytes → GenNodeId → DataType
  enum_data_type : Bytes → GenNodeId → List EnumDefinitionField → DataType
  structure_data_type : Bytes → GenNodeId → List StructureDefinitionField → DataType

abbrev pub name_of : DataType → Bytes
name_of (base_data_type n i) = n
name_of (enum_data_type n i fs) = n
name_of (structure_data_type n i fs) = n

abbrev pub id_of : DataType → GenNodeId
id_of (base_data_type n i) = i
id_of (enum_data_type n i fs) = i
id_of (structure_data_type n i fs) = i

-- std::unordered_map<NodeId, std::unique_ptr<DataType>>
abbrev pub Types : Type 0
Types = List (GenNodeId × DataType)

unfoldable pub find_type : GenNodeId → Types → Option DataType
find_type id [] = none
find_type id ((k, t) ∷ ts) = if gen_node_id_eq k id then some t else find_type id ts

-- insert, which leaves a type that is there
unfoldable pub insert_type : DataType → Types → Types
unfolding find_type
insert_type t ts = elim (find_type (id_of t) ts) [ none ↦ (id_of t, t) ∷ ts | some u ↦ ts ]

-- What the nodeset loader, which is not part of the repository, hands over: the fields and the
-- definition of a TDataTypeNode. An id is a `char *`.
pub record TField : Type 0 where
  pub name : Bytes
  pub value_rank : ℤ
  pub id_string : Option Bytes
  pub value : ℤ

pub record TDefinition : Type 0 where
  pub is_enum : Bool
  pub fields : List TField

pub record TDataTypeNode : Type 0 where
  pub browse_name : Bytes
  pub id_string : Option Bytes
  pub definition : Option TDefinition

pub data TNode : Type 0 where
  data_type_node : TDataTypeNode → TNode
  other_node : TNode

-- The two loops over the fields.
unfoldable pub enum_fields : List TField → Outcome (List EnumDefinitionField)
enum_fields [] = ok []
enum_fields (f ∷ fs) = do
  id ← extract_node_id f.id_string
  rest ← enum_fields fs
  ok (record { name = f.name; value_rank = f.value_rank; data_type = id; value = f.value } ∷ rest)

unfoldable pub structure_fields : List TField → Outcome (List StructureDefinitionField)
structure_fields [] = ok []
structure_fields (f ∷ fs) = do
  id ← extract_node_id f.id_string
  rest ← structure_fields fs
  ok (record { name = f.name; value_rank = f.value_rank; data_type = id } ∷ rest)

-- addNode
unfoldable pub add_node : TNode → Types → Outcome Types
unfolding enum_fields structure_fields insert_type
add_node other_node ts = ok ts
add_node (data_type_node n) ts = elim n.definition [
  | none ↦ faults null_dereference
  | some d ↦ do
    id ← extract_node_id n.id_string
    if d.is_enum
        then (enum_fields d.fields
            >>= (λ fs. ok (insert_type (enum_data_type n.browse_name id fs) ts)))
        else structure_fields d.fields
          >>= (λ fs. ok (insert_type (structure_data_type n.browse_name id fs) ts))
]

-- The types that `main` puts in before it loads a nodeset.
abbrev base : ℕ → Bytes → DataType
base n name = base_data_type name (gen_numeric_id 0 (pos n))

abbrev pub base_types : List DataType
base_types =
    base 1 (text "bool")
    ∷ base 2 (text "char")
    ∷ base 3 (text "unsigned char")
    ∷ base 4 (text "int16_t")
    ∷ base 5 (text "uint16_t")
    ∷ base 6 (text "int32_t")
    ∷ base 7 (text "uint32_t")
    ∷ base 8 (text "int64_t")
    ∷ base 9 (text "uint64_t")
    ∷ base 10 (text "float")
    ∷ base 11 (text "double")
    ∷ base 12 (text "std::string")
    ∷ base 13 (text "uint64_t")
    ∷ base 17 (text "NodeId")
    ∷ base 20 (text "QualifiedName")
    ∷ base 21 (text "LocalizedText")
    ∷ []

unfoldable pub insert_all : List DataType → Types → Types
unfolding insert_type
insert_all [] ts = ts
insert_all (t ∷ us) ts = insert_all us (insert_type t ts)

-- The callbacks of the loader, called for each node of the files in turn.
unfoldable pub load_nodes : List TNode → Types → Outcome Types
unfolding add_node
load_nodes [] ts = ok ts
load_nodes (n ∷ ns) ts = do us ← add_node n ts; load_nodes ns us

-- Each type stands under its own id.
abbrev pub IsTypes : Types → Type 0
IsTypes = All (λ e. id_of e.1 ≡ e.0)
