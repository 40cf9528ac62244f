-- ===== src/Server/Cleanup.antt =====
-- ~Server and cleanupCustomTypes (modernopc/src/Server.cpp), over a heap of the blocks that malloc gave out.
pub mod Footprint
pub mod Freed
pub mod Laws
pub mod Tests
use modern_opc.Base.{
  ℕ, zero, suc, ◌+◌, ◌-◌, ◌%◌, ◌^◌, Bool, true, false, ◌==◌, if◌then◌else◌, Option, none, some,
  List, [], ◌∷◌, Outcome, ok, throws, faults, null_dereference, out_of_bounds, bad_access, ◌>>=◌,
  get_elem?, set,
}
use modern_opc.Server.Nodes.{Server}
use modern_opc.Server.Running.{UaRun, stop}

-- `none` is the null pointer.
abbrev pub Pointer : Type 0
Pointer = Option ℕ

-- UA_DataType, as far as the function reads it. `is_union` is typeKind == UA_DATATYPEKIND_UNION.
pub record DataType : Type 0 where
  pub type_name : Pointer
  pub is_union : Bool
  pub members_size : ℕ
  pub members : Pointer

-- UA_DataTypeArray
pub record DataTypeArray : Type 0 where
  pub next : Pointer
  pub types_size : ℕ
  pub types : Pointer

-- What a block holds: a text, the members of a type with their names, the types of an array, or an
-- array.
pub data Block : Type 0 where
  text_block : Block
  members_block : List Pointer → Block
  types_block : List DataType → Block
  array_block : DataTypeArray → Block

-- The blocks that are allocated.
abbrev pub Heap : Type 0
Heap = ℕ → Option Block

abbrev pub put : Heap → ℕ → Option Block → Heap
put m a b x = if a == x then b else m x

-- free(p), which does nothing on null
unfoldable pub free : Pointer → Heap → Outcome Heap
free none m = ok m
free (some a) m = elim (m a) [ none ↦ faults bad_access | some b ↦ ok (put m a none) ]

-- Reads through a pointer.
unfoldable pub load : Pointer → Heap → Outcome Block
load none m = faults null_dereference
load (some a) m = elim (m a) [ none ↦ faults bad_access | some b ↦ ok b ]

unfoldable pub element_at : {A : Type 0} → List A → ℕ → Outcome A
element_at xs i = elim (get_elem? xs i) [ none ↦ faults out_of_bounds | some x ↦ ok x ]

unfoldable pub members_in : Block → Outcome (List Pointer)
members_in (members_block names) = ok names
members_in _ = faults bad_access

unfoldable pub types_in : Block → Outcome (List DataType)
types_in (types_block types) = ok types
types_in _ = faults bad_access

unfoldable pub array_in : Block → Outcome DataTypeArray
array_in (array_block types) = ok types
array_in _ = faults bad_access

-- m->memberName = NULL
unfoldable pub clear_name : Pointer → List Pointer → ℕ → Heap → Heap
clear_name none names i m = m
clear_name (some a) names i m = put m a (some (members_block (set names i none)))

-- The loop over the members: `n` of them are left, from the `i`-th.
unfoldable pub free_names : ℕ → Pointer → ℕ → Heap → Outcome Heap
unfolding load members_in element_at free clear_name
free_names zero members i m = ok m
free_names (suc n) members i m = do
  block ← load members m
  names ← members_in block
  name ← element_at names i
  freed ← free name m
  free_names n members (suc i) (clear_name members names i freed)

-- mSize: a UA_UInt32, which is one less for a union
unfoldable pub members_to_free : DataType → ℕ
members_to_free t = if t.is_union then (t.members_size + (2 ^ 32 - 1)) % 2 ^ 32 else t.members_size

-- The body of the loop over the types
unfoldable pub free_type : DataType → Heap → Outcome Heap
unfolding free free_names members_to_free
free_type t m = do
  m1 ← free t.type_name m
  m2 ← free_names (members_to_free t) t.members 0 m1
  free t.members m2

unfoldable pub free_types : ℕ → Pointer → ℕ → Heap → Outcome Heap
unfolding load types_in element_at free_type
free_types zero types i m = ok m
free_types (suc n) types i m = do
  block ← load types m
  all ← types_in block
  type ← element_at all i
  freed ← free_type type m
  free_types n types (suc i) freed

-- The body of the loop over the arrays: the next array, and the heap afterwards
unfoldable pub cleanup_array : ℕ → Heap → Outcome (Pointer × Heap)
unfolding load array_in free_types free
cleanup_array a m = do
  block ← load (some a) m
  types ← array_in block
  emptied ← (elim types.types [ none ↦ ok m | some t ↦ free_types types.types_size (some t) 0 m ])
  without_types ← free types.types emptied
  rest ← free (some a) without_types
  ok (types.next, rest)

-- The loop over the arrays. The source follows `next` until it is null; the model has fuel, and
-- `none` stands for a run that the fuel does not suffice for.
unfoldable pub cleanup_custom_types : ℕ → Pointer → Heap → Option (Outcome Heap)
unfolding cleanup_array
cleanup_custom_types fuel none m = some (ok m)
cleanup_custom_types zero (some a) m = none
cleanup_custom_types (suc fuel) (some a) m = elim (cleanup_array a m) [
  | ok r ↦ cleanup_custom_types fuel r.0 r.1
  | throws why ↦ some (throws why)
  | faults why ↦ some (faults why)
]

-- What ~Server calls of open62541: the field customDataTypes of the configuration, and
-- UA_Server_delete, on the heap.
pub record UaEnd (S : Type 0) : Type 0 where
  pub calls : UaRun S
  pub custom_data_types : S → Pointer
  pub delete_server : S → Heap → Outcome Heap

-- Server::~Server
unfoldable pub destroy_server : {S : Type 0} → UaEnd S → ℕ → Server S → Heap → Option (Outcome Heap)
unfolding cleanup_custom_types stop
destroy_server E fuel s m =
    let stopped = stop E.calls s in
    let custom_types = E.custom_data_types stopped.ua in
    elim (E.delete_server stopped.ua m) [
      | ok rest ↦ cleanup_custom_types fuel custom_types rest
      | throws why ↦ some (throws why)
      | faults why ↦ some (faults why)
    ]
