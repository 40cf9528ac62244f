-- ===== src/Server/Cleanup/Tests.antt =====
-- cleanupCustomTypes (modernopc/src/Server.cpp) on an array with a structure and a union.
use modern_opc.Base.{ℕ, ◌≡◌, refl, true, false, none, some, List, [], ◌∷◌, faults, out_of_bounds}
use modern_opc.Server.Cleanup.{
  Block, text_block, members_block, types_block, array_block, Heap, put, free_type, free_names,
  members_to_free, free, load, members_in, element_at,
}
use modern_opc.Server.Cleanup.Footprint.{TypeShape, ArrayShape}

abbrev point : TypeShape
point = record {
  type = record { type_name = some 3; is_union = false; members_size = 2; members = some 4 };
  names = some 5 ∷ some 6 ∷ [];
}

abbrev choice : TypeShape
choice = record {
  type = record { type_name = some 7; is_union = true; members_size = 2; members = some 8 };
  names = some 9 ∷ none ∷ [];
}

abbrev two_types : List ArrayShape
two_types = record { address = 1; types = some 2; shapes = point ∷ choice ∷ [] } ∷ []

abbrev after : List (ℕ × Block) → Heap
after [] a = none
after ((b, block) ∷ rest) a = put (after rest) b (some block) a

abbrev laid_out : Heap
laid_out = after (
    (1, array_block (record { next = none; types_size = 2; types = some 2 }))
    ∷ (2, types_block (point.type ∷ choice.type ∷ []))
    ∷ (3, text_block)
    ∷ (4, members_block point.names)
    ∷ (5, text_block)
    ∷ (6, text_block)
    ∷ (7, text_block)
    ∷ (8, members_block choice.names)
    ∷ (9, text_block)
    ∷ [])

-- mSize of a union without members wraps round.
empty_union_runs_out :
    free_type
      (record { type_name = none; is_union = true; members_size = 0; members = some 1 })
      (after ((1, members_block []) ∷ []))
    ≡ faults out_of_bounds
unfolding free_type free_names members_to_free load members_in element_at free
empty_union_runs_out = refl
