-- ===== src/TypeGenerator/Order.antt =====
-- The order in which classes are generated: buildOrder of TypeGenerator/TypeGenerator.h and of the
-- data types. The recursion of the source is bounded by fuel; `none` stands for a run that the
-- fuel does not suffice for.
pub mod Laws
use modern_opc.Base.{
  ℕ, zero, suc, Bool, true, false, if◌then◌else◌, List, [], ◌∷◌, ◌++◌, Option, none, some,
}
use modern_opc.TypeGenerator.Ids.{GenNodeId}
use modern_opc.TypeGenerator.DataTypes.{
  StructureDefinitionField, DataType, base_data_type, enum_data_type, structure_data_type, Types,
  find_type,
}

-- The answer and the ids that were pushed so far.
abbrev pub Ordering : Type 0
Ordering = Bool × List GenNodeId

-- The loop over the fields, `visit` being buildOrder of a field's type.
unfoldable pub build_fields :
    (DataType → List GenNodeId → Option Ordering)
    → Types
    → List StructureDefinitionField
    → List GenNodeId
    → Option Ordering
build_fields visit ts [] order = some (true, order)
build_fields visit ts (f ∷ fs) order = elim (find_type f.data_type ts) [
  | none ↦ some (false, order)
  | some t ↦ elim (visit t order) [
    | none ↦ none
    | some r ↦ if r.0 then build_fields visit ts fs r.1 else some (false, r.1)
  ]
]

-- order.push_back(type.id) after the loop
unfoldable pub push_after : GenNodeId → Option Ordering → Option Ordering
push_after id none = none
push_after id (some (true, order)) = some (true, order ++ (id ∷ []))
push_after id (some (false, order)) = some (false, order)

-- DataType::buildOrder
unfoldable pub build_order : ℕ → Types → DataType → List GenNodeId → Option Ordering
unfolding build_fields push_after
build_order zero ts t order = none
build_order (suc n) ts (base_data_type name id) order = some (true, order)
build_order (suc n) ts (enum_data_type name id fs) order = some (true, order ++ (id ∷ []))
build_order (suc n) ts (structure_data_type name id fs) order =
    push_after id (build_fields (build_order n ts) ts fs order)
