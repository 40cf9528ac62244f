-- ===== src/Variant/Ownership/Tests.antt =====
-- Programs of Variants over a memory with an object on the heap and one on the stack.
use modern_opc.Base.{
  pos, ℕ, ◌≡◌, refl, true, false, [], ◌∷◌, pos, ok, faults, bad_access, Option, none, some, arith,
  ltb, Bool-cases, ◌==◌, if◌then◌else◌, Returns, inr, inl, ◌+◌,
}
use modern_opc.Variant.{int32, int_value, integer, int32, int_value, UaVariant, empty, scalar}
use modern_opc.Variant.Ownership.{VariantMemory, Variant, Cell, with_content, copy_assign, ua_read}
use modern_opc.Variant.Ownership.Steps.{State, destroys, copy_assigns, step, run}
use modern_opc.Variant.Ownership.Invariant.{IsSound}
use modern_opc.Variant.Ownership.Calls.{IsReadable}
use modern_opc.Variant.Ownership.Safety.{step-IsSound}
use modern_opc.Variant.Ownership.SelfAssigned.{copy_assign_self_empties}
use modern_opc.Variant.Ownership.Borrowed.{Borrows, copy_assign_then_destroy}

-- A memory: the objects by address. Addresses from `next` on are unused.
pub record Memory : Type 0 where
  pub next : ℕ
  pub cells : ℕ → Option Cell

abbrev pub read_cell : Memory → ℕ → Option Cell
read_cell m p = if ltb p m.next then m.cells p else none

abbrev pub add_cell : Memory → ℕ × Memory
add_cell m = (
  m.next,
  record {
    next = m.next + 1;
    cells =
        λ q. if m.next == q then some (record { on_heap = true; content = empty }) else m.cells q;
  },
)

abbrev pub drop_cell : Memory → ℕ → Memory
drop_cell m p = record m { cells = λ q. if p == q then none else m.cells q }

abbrev pub fill_cell : Memory → ℕ → UaVariant → Memory
fill_cell m p v = record m { cells = λ q. if p == q then with_content v (m.cells q) else m.cells q }

pub next_unused : (m : Memory) → read_cell m (add_cell m).0 ≡ none
next_unused m = ground arith

pub read-add :
    (m : Memory) (q : ℕ)
    → read_cell (add_cell m).1 q ≡ (
        if (add_cell m).0 == q
        then some (record { on_heap = true; content = empty })
        else read_cell m q)
read-add m q = ground arith

pub read-drop :
    (m : Memory) (p q : ℕ) → read_cell (drop_cell m p) q ≡ (if p == q then none else read_cell m q)
read-drop m p q = ground arith

pub read-fill :
    (m : Memory) (p q : ℕ) (v : UaVariant)
    → read_cell (fill_cell m p v) q
      ≡ (if p == q then with_content v (read_cell m q) else read_cell m q)
read-fill m p q v = ground arith

abbrev pub memory : VariantMemory Memory
memory = record {
  cell = read_cell;
  new = add_cell;
  delete = drop_cell;
  write = fill_cell;
  fresh = next_unused;
  cell-new = read-add;
  cell-delete = read-drop;
  cell-write = read-fill;
}

-- The object 0 owns a variant; the object 1 borrows one that stands on the stack.
abbrev pub owner : Variant
owner = record { variant = some 0; owned = true }

abbrev pub borrower : Variant
borrower = record { variant = some 1; owned = false }

abbrev pub heap_cell : Cell
heap_cell = record { on_heap = true; content = scalar (integer int32) (int_value int32 (pos 42)) }

abbrev pub stack_cell : Cell
stack_cell = record { on_heap = false; content = empty }

abbrev pub two_objects : State Memory
two_objects = record {
  mem = record { next = 2; cells = λ p. if p == 0 then some heap_cell else some stack_cell };
  vars = λ x. if 0 == x then some owner else if 1 == x then some borrower else none;
}

two_objects-IsSound : IsSound memory two_objects
two_objects-IsSound = record {
  not_null = λ x. elim (Bool-cases (0 == x)) [
    | inl h ↦ rw h (λ o e. cc)
    | inr h ↦ rw h (elim (Bool-cases (1 == x)) [ inl k ↦ rw k (λ o e. cc) | inr k ↦ rw k tt ])
  ];
  alive_owned = λ x p h. ground arith;
  apart = λ x y p h k. ground arith;
}

owner-IsReadable : IsReadable memory two_objects 0
owner-IsReadable = record {
  object = owner;
  address = 0;
  target = heap_cell;
  object_lem = refl;
  address_lem = refl;
  target_lem = refl;
}

step-IsSound_example : Returns (IsSound memory) (step memory (copy_assigns 0 0) two_objects)
step-IsSound_example =
    step-IsSound memory (copy_assigns 0 0) two_objects (owner, refl, refl, owner-IsReadable)
      two_objects-IsSound

borrower-Borrows : Borrows memory two_objects 1
borrower-Borrows = record {
  object = borrower;
  address = 1;
  target = stack_cell;
  object_lem = refl;
  borrowed = refl;
  address_lem = refl;
  target_lem = refl;
  not_heap = refl;
}

copy_assign_then_destroy_example :
    run memory (copy_assigns 1 0 ∷ destroys 1 ∷ []) two_objects ≡ faults bad_access
copy_assign_then_destroy_example =
    copy_assign_then_destroy memory two_objects 1 0 borrower-Borrows owner-IsReadable

copy_assign_self_empties_example :
    (m : Memory) × (copy_assign memory two_objects.mem owner owner
      ≡ ok (record { variant = some 0; owned = true }, m))
    × (ua_read memory m (some 0) ≡ ok empty)
copy_assign_self_empties_example =
    copy_assign_self_empties memory two_objects.mem owner 0 heap_cell refl refl refl
