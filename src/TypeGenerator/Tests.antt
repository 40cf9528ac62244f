-- ===== src/TypeGenerator/Tests.antt =====
-- The type generator on a nodeset with two structures and an enum.
use modern_opc.Base.{
  decimal, ◌++◌, out_of_bounds, faults, c_string, atoi, scan, ℕ, ◌≡◌, refl, true, Bytes, text, pos,
  negsuc, Outcome, ok, Returns, List, [], ◌∷◌, none, some, atoi, scan, arith,
}
use modern_opc.TypeGenerator.Ids.{
  strchr_semicolon, GenNodeId, gen_int, gen_string, gen_numeric_id, gen_string_id,
  print_gen_node_id, extract_node_id, gen_node_id_eq,
}
use modern_opc.TypeGenerator.Ids.Extract.{
  extract_node_id-print_gen_node_id, extract_node_id_overruns,
}
use modern_opc.TypeGenerator.DataTypes.{
  StructureDefinitionField, DataType, base_data_type, enum_data_type, structure_data_type, Types,
  find_type, TNode, data_type_node, other_node, load_nodes, id_of, IsTypes,
}
use modern_opc.TypeGenerator.DataTypes.Laws.{Grows, load_nodes-Grows, find_type-All}
use modern_opc.TypeGenerator.Order.{build_order}
use modern_opc.TypeGenerator.Order.Laws.{
  Sorted, Placed, Ranked, FieldsBelow, build_order-Sorted, build_order_loops,
}
use modern_opc.TypeGenerator.Classes.{TypeGenerator, generate_class}
use modern_opc.TypeGenerator.Classes.Laws.{Complete, Has, generate_class-Complete}

extract_node_id-print_gen_node_id_example :
    extract_node_id (some (print_gen_node_id (gen_string_id 2 (text "a;b"))))
    ≡ ok (gen_string_id 2 (text "a;b"))
extract_node_id-print_gen_node_id_example =
    extract_node_id-print_gen_node_id (gen_string_id 2 (text "a;b"))
      (omega arith, (omega arith, (omega arith, (omega arith, tt))))

extract_node_id_overruns_example :
    (extract_node_id (some (text "ns=" ++ (decimal 2 ++ text ";i"))) ≡ faults out_of_bounds)
    × (extract_node_id (some (text "ns=" ++ (decimal 2 ++ text ";s"))) ≡ faults out_of_bounds)
extract_node_id_overruns_example = extract_node_id_overruns 2 (omega arith)

abbrev field : Bytes → ℕ → StructureDefinitionField
field name id = record { name = name; value_rank = negsuc 0; data_type = gen_numeric_id 0 (pos id) }

abbrev bool_type : DataType
bool_type = base_data_type (text "bool") (gen_numeric_id 0 (pos 1))

abbrev inner_type : DataType
inner_type =
    structure_data_type (text "Inner") (gen_numeric_id 0 (pos 300)) (field (text "Flag") 1 ∷ [])

abbrev outer_type : DataType
outer_type =
    structure_data_type (text "Outer") (gen_numeric_id 0 (pos 308))
      (field (text "First") 300 ∷ field (text "Second") 300 ∷ [])

abbrev types : Types
types =
    (gen_numeric_id 0 (pos 1), bool_type)
    ∷ (gen_numeric_id 0 (pos 300), inner_type)
    ∷ (gen_numeric_id 0 (pos 308), outer_type)
    ∷ []

abbrev rank : GenNodeId → ℕ
rank id = elim id.i [ gen_int z ↦ elim z [ pos n ↦ n | negsuc n ↦ 0 ] | gen_string s ↦ 0 ]

types-IsTypes : IsTypes types
types-IsTypes = (refl, (refl, (refl, tt)))

types-Ranked : Ranked types rank
unfolding find_type gen_node_id_eq
types-Ranked t e =
    find_type-All (FieldsBelow types rank) (id_of t) types t
      (
        tt,
        (
          ((bool_type, refl, omega arith), tt),
          (((inner_type, refl, omega arith), ((inner_type, refl, omega arith), tt)), tt),
        ),
      )
      e

outer_type_found : find_type (id_of outer_type) types ≡ some outer_type
unfolding find_type gen_node_id_eq
outer_type_found = refl

outer_order :
    build_order 3 types outer_type []
    ≡ some (
      true,
      gen_numeric_id 0 (pos 300) ∷ gen_numeric_id 0 (pos 300) ∷ gen_numeric_id 0 (pos 308) ∷ [],
    )
unfolding build_order find_type gen_node_id_eq
outer_order = refl

build_order-Sorted_example :
    (new : List GenNodeId) × (build_order 309 types outer_type [] ≡ some (true, new))
    × Sorted types [] new
    × Placed outer_type new
build_order-Sorted_example =
    build_order-Sorted types rank types-IsTypes types-Ranked 309 outer_type [] outer_type_found
      (omega arith) tt

abbrev list_type : DataType
list_type =
    structure_data_type (text "Rec") (gen_numeric_id 1 (pos 5))
      (record { name = text "next"; value_rank = pos 1; data_type = gen_numeric_id 1 (pos 5) } ∷ [])

list_type_found :
    find_type (gen_numeric_id 1 (pos 5)) ((gen_numeric_id 1 (pos 5), list_type) ∷ [])
    ≡ some list_type
unfolding find_type gen_node_id_eq
list_type_found = refl

build_order_loops_example :
    build_order 1_000 ((gen_numeric_id 1 (pos 5), list_type) ∷ []) list_type [] ≡ none
build_order_loops_example =
    build_order_loops ((gen_numeric_id 1 (pos 5), list_type) ∷ []) (text "Rec")
      (gen_numeric_id 1 (pos 5))
      (record { name = text "next"; value_rank = pos 1; data_type = gen_numeric_id 1 (pos 5) }) []
      list_type_found 1_000 []

abbrev nodes : List TNode
nodes =
    other_node
    ∷ data_type_node (record {
      browse_name = text "E";
      id_string = some (text "i=9");
      definition = some (record {
        is_enum = true;
        fields =
            record { name = text "On"; value_rank = negsuc 0; id_string = none; value = pos 1 }
            ∷ [];
      });
    })
    ∷ []

abbrev loaded : Types
loaded =
    (
      gen_numeric_id 0 (pos 9),
      enum_data_type (text "E") (gen_numeric_id 0 (pos 9)) (
          record {
            name = text "On";
            value_rank = negsuc 0;
            data_type = gen_numeric_id 0 (pos 0);
            value = pos 1;
          }
          ∷ []),
    )
    ∷ types

nodes_load : load_nodes nodes types ≡ ok loaded
unfolding load_nodes extract_node_id c_string find_type gen_node_id_eq strchr_semicolon atoi scan
nodes_load = refl

load_nodes-Grows_example : Grows types loaded
load_nodes-Grows_example = load_nodes-Grows nodes types loaded types-IsTypes nodes_load

abbrev generator : TypeGenerator
generator = record { generated = []; streams = record { header = []; impl = [] } }

generate_class-Complete_example :
    (r : Outcome TypeGenerator) × (generate_class 309 types outer_type generator ≡ some r)
    × Returns (λ h. Complete types h.generated × Has h.generated outer_type) r
generate_class-Complete_example =
    generate_class-Complete types rank 309 outer_type generator types-IsTypes types-Ranked
      outer_type_found (omega arith) tt

abbrev run_of : Outcome TypeGenerator → TypeGenerator
run_of (ok h) = h
run_of r = generator

-- The order names the inner type twice.
abbrev inner_twice : List GenNodeId
inner_twice = gen_numeric_id 0 (pos 300) ∷ gen_numeric_id 0 (pos 300) ∷ []
