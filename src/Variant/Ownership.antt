-- ===== src/Variant/Ownership.antt =====
-- The constructors, the destructor and the assignments of class Variant
-- (modernopc/include/modernopc/Variant.h, modernopc/src/Variant.cpp), over the memory in which
-- open62541 keeps its UA_Variant objects. That memory's functions are a parameter.
pub mod Invariant
pub mod Steps
pub mod Calls
pub mod Safety
pub mod Borrowed
pub mod SelfAssigned
pub mod Tests
use modern_opc.Base.{
  ℕ, ◌≡◌, Bool, true, false, ◌==◌, if◌then◌else◌, Option, none, some, Outcome, ok, faults,
  null_dereference, bad_access, ◌>>=◌,
}
use modern_opc.Variant.{UaVariant, empty}

-- A UA_Variant that is alive, and whether UA_Variant_new made it.
pub record Cell : Type 0 where
  pub on_heap : Bool
  pub content : UaVariant

abbrev pub is_heap : Option Cell → Bool
is_heap none = false
is_heap (some c) = c.on_heap

abbrev pub with_content : UaVariant → Option Cell → Option Cell
with_content v none = none
with_content v (some c) = some (record c { content = v })

-- `cell m p` is the object at the address `p`. `new` is UA_Variant_new, `delete` UA_Variant_delete,
-- and `write` what UA_Variant_init, UA_Variant_clear and UA_Variant_copy do to an object. The laws
-- say that a new object is apart from all that are alive, and that the others are left alone.
pub record VariantMemory (Mem : Type 0) : Type 0 where
  pub cell : Mem → ℕ → Option Cell
  pub new : Mem → ℕ × Mem
  pub delete : Mem → ℕ → Mem
  pub write : Mem → ℕ → UaVariant → Mem
  pub fresh : (m : Mem) → cell m (new m).0 ≡ none
  pub cell-new :
      (m : Mem) (q : ℕ)
      → cell (new m).1 q
        ≡ (if (new m).0 == q then some (record { on_heap = true; content = empty }) else cell m q)
  pub cell-delete : (m : Mem) (p q : ℕ) → cell (delete m p) q ≡ (if p == q then none else cell m q)
  pub cell-write :
      (m : Mem) (p q : ℕ) (v : UaVariant)
      → cell (write m p v) q ≡ (if p == q then with_content v (cell m q) else cell m q)

-- An object of the class; `none` is the null pointer.
pub record Variant : Type 0 where
  pub variant : Option ℕ
  pub owned : Bool

-- What a move leaves behind.
abbrev pub moved_from : Variant
moved_from = record { variant = none; owned = false }

module _ {Mem : Type 0} (M : VariantMemory Mem) where
  -- UA_Variant_delete(variant), on what UA_Variant_new made only
  unfoldable pub ua_delete : Mem → Option ℕ → Outcome Mem
  ua_delete m none = faults null_dereference
  ua_delete m (some p) = if is_heap (M.cell m p) then ok (M.delete m p) else faults bad_access

  -- UA_Variant_clear(variant); UA_Variant_init(variant)
  unfoldable pub ua_clear : Mem → Option ℕ → Outcome Mem
  ua_clear m none = faults null_dereference
  ua_clear m (some p) = elim (M.cell m p) [
    | none ↦ faults bad_access
    | some c ↦ ok (M.write m p empty)
  ]

  -- what a pointer to a UA_Variant is read as
  unfoldable pub ua_read : Mem → Option ℕ → Outcome UaVariant
  ua_read m none = faults null_dereference
  ua_read m (some p) = elim (M.cell m p) [ none ↦ faults bad_access | some c ↦ ok c.content ]

  unfoldable pub ua_write : Mem → Option ℕ → UaVariant → Outcome Mem
  ua_write m none v = faults null_dereference
  ua_write m (some p) v = elim (M.cell m p) [
    | none ↦ faults bad_access
    | some c ↦ ok (M.write m p v)
  ]

  -- UA_Variant_copy(src, dst)
  unfoldable pub ua_copy : Mem → Option ℕ → Option ℕ → Outcome Mem
  unfolding ua_read ua_write
  ua_copy m src dst = do v ← ua_read m src; ua_write m dst v

  -- Variant::Variant()
  unfoldable pub default_construct : Mem → Variant × Mem
  default_construct m = (record { variant = some (M.new m).0; owned = true }, (M.new m).1)

  -- Variant::Variant(UA_Variant *, bool)
  abbrev pub wrap : ℕ → Bool → Variant
  wrap p owner = record { variant = some p; owned = owner }

  -- Variant::Variant(T &&): the value is what toUAVariant makes of its argument
  unfoldable pub value_construct : Mem → UaVariant → Outcome (Variant × Mem)
  unfolding ua_write
  value_construct m v = do
    m' ← ua_write (M.new m).1 (some (M.new m).0) v
    ok (record { variant = some (M.new m).0; owned = true }, m')

  -- Variant::operator()(const T &)
  unfoldable pub set_value : Mem → Variant → UaVariant → Outcome Mem
  unfolding ua_write
  set_value m this v = ua_write m this.variant v

  -- Variant::~Variant()
  unfoldable pub destroy : Mem → Variant → Outcome Mem
  unfolding ua_delete
  destroy m this = if this.owned then ua_delete m this.variant else ok m

  -- Variant::Variant(const Variant &)
  unfoldable pub copy_construct : Mem → Variant → Outcome (Variant × Mem)
  unfolding ua_copy
  copy_construct m other = do
    m' ← ua_copy (M.new m).1 other.variant (some (M.new m).0)
    ok (record { variant = some (M.new m).0; owned = true }, m')

  -- Variant::operator=(const Variant &)
  unfoldable pub copy_assign : Mem → Variant → Variant → Outcome (Variant × Mem)
  unfolding ua_clear ua_copy
  copy_assign m this other = do
    m₁ ← if this.owned then ua_clear m this.variant else ok m
    m₂ ← ua_copy m₁ other.variant this.variant
    ok (record this { owned = true }, m₂)

  -- Variant::Variant(Variant &&): the new object, and the other
  unfoldable pub move_construct : Variant → Variant × Variant
  move_construct other = (record { variant = other.variant; owned = other.owned }, moved_from)

  -- Variant::operator=(Variant &&): this object, the other, and the memory
  unfoldable pub move_assign : Mem → Variant → Variant → Outcome (Variant × Variant × Mem)
  unfolding ua_delete
  move_assign m this other = do
    m' ← if this.owned then ua_delete m this.variant else ok m
    ok (record { variant = other.variant; owned = other.owned }, moved_from, m')
