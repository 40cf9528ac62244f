-- ===== src/Server/Cleanup/Footprint.antt =====
-- The blocks that a chain of UA_DataTypeArrays consists of, as cleanupCustomTypes
-- (modernopc/src/Server.cpp) is to free them.
use modern_opc.Base.{
  ℕ, zero, suc, ◌≡◌, refl, sym, ap, ◌∙◌, ◌⊎◌, inl, inr, ◌≤◌, Bool, true, false, Bool-cases, ◌==◌,
  ==_iff, ==_refl, ◌||◌, if◌then◌else◌, Option, none, some, List, [], ◌∷◌, ◌++◌, map, arith, All,
  length,
}
use modern_opc.Server.Cleanup.{
  Pointer, DataType, Block, members_block, types_block, array_block, Heap, members_to_free,
}

abbrev pub mem : ℕ → List ℕ → Bool
mem a [] = false
mem a (x ∷ xs) = (x == a) || mem a xs

-- No address stands twice.
abbrev pub Distinct : List ℕ → Type 0
Distinct [] = Unit {0}
Distinct (x ∷ xs) = (mem x xs ≡ false) × Distinct xs

abbrev pub Apart : List ℕ → List ℕ → Type 0
Apart xs ys = (a : ℕ) → mem a xs ≡ true → mem a ys ≡ false

pub mem-append : (a : ℕ) (xs ys : List ℕ) → mem a (xs ++ ys) ≡ (mem a xs || mem a ys)
mem-append a [] ys = refl
mem-append a (x ∷ xs) ys = rw (mem-append a xs ys) (assoc (x == a) (mem a xs) (mem a ys))
  where
    assoc : (p q r : Bool) → (p || (q || r)) ≡ ((p || q) || r)
    assoc true q r = refl
    assoc false q r = refl

neither : (p q : Bool) → (p || q) ≡ false → (p ≡ false) × (q ≡ false)
neither p q h = ground arith

pub mem-append_false :
    (a : ℕ) (xs ys : List ℕ) → mem a (xs ++ ys) ≡ false → (mem a xs ≡ false) × (mem a ys ≡ false)
mem-append_false a xs ys h = neither (mem a xs) (mem a ys) (sym (mem-append a xs ys) ∙ h)

pub Distinct-append :
    (xs ys : List ℕ) → Distinct (xs ++ ys) → Distinct xs × Distinct ys × Apart xs ys
Distinct-append [] ys h = (tt, h, λ a e. cc e)
Distinct-append (x ∷ xs) ys h =
    let (d, e, f) = Distinct-append xs ys h.1 in
    let (m, n) = mem-append_false x xs ys h.0 in
    ((m, d), e, λ a k. apart a k f n (Bool-cases (x == a)))
  where
    apart :
        (a : ℕ)
        → ((x == a) || mem a xs) ≡ true
        → Apart xs ys
        → mem x ys ≡ false
        → ((x == a) ≡ true) ⊎ ((x == a) ≡ false)
        → mem a ys ≡ false
    apart a k f n (inl e) = ap (λ y. mem y ys) (sym ((==_iff x a).0 e)) ∙ n
    apart a k f n (inr e) = f a (sym (ap (λ b. b || mem a xs) e) ∙ k)

-- The blocks of those addresses are gone, the others are as before.
abbrev pub Frees : List ℕ → Heap → Heap → Type 0
Frees xs m m' = (a : ℕ) → m' a ≡ (if mem a xs then none else m a)

abbrev pub AllLive : Heap → List ℕ → Type 0
AllLive m = All (λ a. (b : Block) × (m a ≡ some b))

-- An address after two lists of blocks are freed, one after the other.
pub freed_twice :
    (a : ℕ) (xs ys : List ℕ) (o o' : Option Block)
    → o' ≡ (if mem a xs then none else o)
    → (if mem a ys then none else o') ≡ (if mem a (xs ++ ys) then none else o)
freed_twice a xs ys o o' h =
    ap (λ (q : Option Block). if mem a ys then none else q) h
    ∙ both (mem a xs) (mem a ys)
    ∙ ap (λ b. if b then none else o) (sym (mem-append a xs ys))
  where
    both :
        (p q : Bool) → (if q then none else (if p then none else o)) ≡ (if p || q then none else o)
    both true true = refl
    both true false = refl
    both false q = refl

pub Frees-trans :
    (xs ys : List ℕ) (m m' m'' : Heap) → Frees xs m m' → Frees ys m' m'' → Frees (xs ++ ys) m m''
Frees-trans xs ys m m' m'' f g a = g a ∙ freed_twice a xs ys (m a) (m' a) (f a)

pub Frees-outside :
    (xs : List ℕ) (m m' : Heap) (a : ℕ) → Frees xs m m' → mem a xs ≡ false → m' a ≡ m a
Frees-outside xs m m' a f h = f a ∙ ap (λ b. if b then none else m a) h

pub Apart-sym : (xs ys : List ℕ) (a : ℕ) → Apart xs ys → mem a ys ≡ true → mem a xs ≡ false
Apart-sym xs ys a h k = elim (Bool-cases (mem a xs)) [ inl e ↦ cc (h a e, k) | inr e ↦ e ]

-- Blocks apart from those that are freed stay.
pub Frees-Apart :
    (xs ys : List ℕ) (m m' : Heap) (a : ℕ)
    → Frees xs m m'
    → Apart xs ys
    → mem a ys ≡ true
    → m' a ≡ m a
Frees-Apart xs ys m m' a f h k = Frees-outside xs m m' a f (Apart-sym xs ys a h k)

pub mem_head : (a : ℕ) (xs : List ℕ) → mem a (a ∷ xs) ≡ true
mem_head a xs = rw (==_refl a) refl

pub mem-append_right : (a : ℕ) (xs ys : List ℕ) → mem a ys ≡ true → mem a (xs ++ ys) ≡ true
mem-append_right a xs ys h = mem-append a xs ys ∙ rw h (last (mem a xs))
  where
    last : (b : Bool) → (b || true) ≡ true
    last true = refl
    last false = refl

pub mem-append_left : (a : ℕ) (xs ys : List ℕ) → mem a xs ≡ true → mem a (xs ++ ys) ≡ true
mem-append_left a xs ys h = mem-append a xs ys ∙ rw h refl

pub AllLive-Frees :
    (xs ys : List ℕ) (m m' : Heap) → Frees xs m m' → Apart xs ys → AllLive m ys → AllLive m' ys
AllLive-Frees xs [] m m' f h l = tt
AllLive-Frees xs (y ∷ ys) m m' f h l = (
  (l.0.0, Frees-Apart xs (y ∷ ys) m m' y f h (mem_head y ys) ∙ l.0.1),
  AllLive-Frees xs ys m m' f (λ a k. (neither (y == a) (mem a ys) (h a k)).1) l.1,
)

-- A type with the names of its members, and an array with its types.
pub record TypeShape : Type 0 where
  pub type : DataType
  pub names : List Pointer

pub record ArrayShape : Type 0 where
  pub address : ℕ
  pub types : Pointer
  pub shapes : List TypeShape

abbrev pub block_of : Pointer → List ℕ
block_of none = []
block_of (some a) = a ∷ []

-- The blocks of the first `n` names.
abbrev pub blocks_of_names : ℕ → List Pointer → List ℕ
blocks_of_names zero ps = []
blocks_of_names (suc n) [] = []
blocks_of_names (suc n) (p ∷ ps) = block_of p ++ blocks_of_names n ps

abbrev pub blocks_of_type : TypeShape → List ℕ
blocks_of_type d =
    block_of d.type.type_name
    ++ (blocks_of_names (members_to_free d.type) d.names ++ block_of d.type.members)

abbrev pub blocks_of_types : List TypeShape → List ℕ
blocks_of_types [] = []
blocks_of_types (d ∷ ds) = blocks_of_type d ++ blocks_of_types ds

abbrev pub blocks_of_array : ArrayShape → List ℕ
blocks_of_array s = blocks_of_types s.shapes ++ (block_of s.types ++ (s.address ∷ []))

abbrev pub blocks_of_chain : List ArrayShape → List ℕ
blocks_of_chain [] = []
blocks_of_chain (s ∷ ss) = blocks_of_array s ++ blocks_of_chain ss

-- What the blocks hold.
abbrev pub MembersAt : Heap → Pointer → TypeShape → Type 0
MembersAt m none d = members_to_free d.type ≡ 0
MembersAt m (some a) d =
    (m a ≡ some (members_block d.names)) × (members_to_free d.type ≤ length d.names)

abbrev pub TypesAt : Heap → Pointer → List TypeShape → Type 0
TypesAt m none ds = ds ≡ []
TypesAt m (some a) ds = m a ≡ some (types_block (map TypeShape.type ds))

abbrev pub head_of : List ArrayShape → Pointer
head_of [] = none
head_of (s ∷ ss) = some s.address

-- The chain of arrays stands in the heap.
abbrev pub ChainAt : Heap → List ArrayShape → Type 0
ChainAt m [] = Unit {0}
ChainAt m (s ∷ ss) =
    (m s.address
      ≡ some (
          array_block
            (record { next = head_of ss; types_size = length s.shapes; types = s.types })))
    × TypesAt m s.types s.shapes
    × All (λ d. MembersAt m d.type.members d) s.shapes
    × ChainAt m ss

-- Contents outside the blocks that are freed stay.
pub MembersAt-Frees :
    (xs : List ℕ) (d : TypeShape) (p : Pointer) (m m' : Heap)
    → Frees xs m m'
    → ((a : ℕ) → mem a (block_of p) ≡ true → mem a xs ≡ false)
    → MembersAt m p d
    → MembersAt m' p d
MembersAt-Frees xs d none m m' f h at = at
MembersAt-Frees xs d (some a) m m' f h at =
    (Frees-outside xs m m' a f (h a (mem_head a [])) ∙ at.0, at.1)

pub TypesAt-Frees :
    (xs : List ℕ) (p : Pointer) (ds : List TypeShape) (m m' : Heap)
    → Frees xs m m'
    → ((a : ℕ) → mem a (block_of p) ≡ true → mem a xs ≡ false)
    → TypesAt m p ds
    → TypesAt m' p ds
TypesAt-Frees xs none ds m m' f h at = at
TypesAt-Frees xs (some a) ds m m' f h at = Frees-outside xs m m' a f (h a (mem_head a [])) ∙ at

-- The members' block of a type is one of the type's.
pub members_in_type :
    (d : TypeShape) (a : ℕ)
    → mem a (block_of d.type.members) ≡ true
    → mem a (blocks_of_type d) ≡ true
members_in_type d a h =
    mem-append_right a (block_of d.type.type_name)
      (blocks_of_names (members_to_free d.type) d.names ++ block_of d.type.members)
      (mem-append_right a (blocks_of_names (members_to_free d.type) d.names)
        (block_of d.type.members) h)

pub AllMembersAt-Frees :
    (xs : List ℕ) (ds : List TypeShape) (m m' : Heap)
    → Frees xs m m'
    → Apart xs (blocks_of_types ds)
    → All (λ d. MembersAt m d.type.members d) ds
    → All (λ d. MembersAt m' d.type.members d) ds
AllMembersAt-Frees xs [] m m' f h at = tt
AllMembersAt-Frees xs (d ∷ ds) m m' f h at = (
  MembersAt-Frees xs d d.type.members m m' f
      (λ a k.
        Apart-sym xs (blocks_of_types (d ∷ ds)) a h
          (mem-append_left a (blocks_of_type d) (blocks_of_types ds) (members_in_type d a k)))
      at.0,
  AllMembersAt-Frees xs ds m m' f
      (λ a k. (mem-append_false a (blocks_of_type d) (blocks_of_types ds) (h a k)).1) at.1,
)
