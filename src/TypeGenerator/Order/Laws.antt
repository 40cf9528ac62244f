-- ===== src/TypeGenerator/Order/Laws.antt =====
-- buildOrder (TypeGenerator/TypeGenerator.h) on ranked types, and on a type that contains itself.
use modern_opc.Base.{
  ℕ, zero, suc, ◌≡◌, refl, sym, ap, ◌∙◌, subst, ◌<◌, ◌≤◌, Bool, true, false, if◌then◌else◌, List,
  [], ◌∷◌, ◌++◌, append_assoc, append-nil, Option, Bytes, none, some, All, arith,
}
use modern_opc.TypeGenerator.Ids.{GenNodeId, gen_node_id_eq, gen_node_id_eq_iff}
use modern_opc.TypeGenerator.DataTypes.{
  StructureDefinitionField, DataType, base_data_type, enum_data_type, structure_data_type, Types,
  find_type, id_of, IsTypes,
}
use modern_opc.TypeGenerator.Order.{Ordering, build_fields, push_after, build_order}

abbrev pub Listed : GenNodeId → List GenNodeId → Type 0
Listed id xs = (l : List GenNodeId) × (r : List GenNodeId) × (xs ≡ l ++ (id ∷ r))

-- A base type needs no class of its own; the others are in the list.
abbrev pub Placed : DataType → List GenNodeId → Type 0
Placed (base_data_type name id) xs = Unit {0}
Placed t xs = Listed (id_of t) xs

-- The field's type is known and placed.
abbrev pub Ready : Types → List GenNodeId → StructureDefinitionField → Type 0
Ready ts before f = (u : DataType) × (find_type f.data_type ts ≡ some u) × Placed u before

abbrev pub Depends : Types → List GenNodeId → DataType → Type 0
Depends ts before (structure_data_type name id fs) = All (Ready ts before) fs
Depends ts before t = Unit {0}

-- Every id is that of a known type, and the types of its fields come before it.
abbrev pub Sorted : Types → List GenNodeId → List GenNodeId → Type 0
Sorted ts before [] = Unit {0}
Sorted ts before (id ∷ ids) =
    ((t : DataType) × (find_type id ts ≡ some t) × Depends ts before t)
    × Sorted ts (before ++ (id ∷ [])) ids

-- The types are ranked: every field of a structure is of a known type of lower rank.
abbrev pub Below : Types → (GenNodeId → ℕ) → ℕ → StructureDefinitionField → Type 0
Below ts rank bound f =
    (u : DataType) × (find_type f.data_type ts ≡ some u) × (rank (id_of u) < bound)

abbrev pub FieldsBelow : Types → (GenNodeId → ℕ) → DataType → Type 0
FieldsBelow ts rank (structure_data_type name id fs) = All (Below ts rank (rank id)) fs
FieldsBelow ts rank t = Unit {0}

abbrev pub Ranked : Types → (GenNodeId → ℕ) → Type 0
Ranked ts rank = (t : DataType) → find_type (id_of t) ts ≡ some t → FieldsBelow ts rank t

pub some-injective {ℓ} : {A : Type ℓ} {x y : A} → some x ≡ some y → x ≡ y
some-injective e = cc e

pub find_type-id_of :
    (id : GenNodeId) (ts : Types) (t : DataType)
    → IsTypes ts
    → find_type id ts ≡ some t
    → id_of t ≡ id
unfolding find_type
find_type-id_of id [] t h e = cc
find_type-id_of id ((k, u) ∷ ts) t h e =
    go (gen_node_id_eq k id) refl e (find_type-id_of id ts t h.1)
  where
    go :
        (b : Bool)
        → gen_node_id_eq k id ≡ b
        → (if b then some u else find_type id ts) ≡ some t
        → (find_type id ts ≡ some t → id_of t ≡ id)
        → id_of t ≡ id
    go true y e next =
        subst (λ x. id_of x ≡ id) (some-injective e) (h.0 ∙ (gen_node_id_eq_iff k id).0 y)
    go false y e next = next e

Sorted-append :
    (ts : Types) (b xs ys : List GenNodeId)
    → Sorted ts b xs
    → Sorted ts (b ++ xs) ys
    → Sorted ts b (xs ++ ys)
Sorted-append ts b [] ys h k = subst (λ z. Sorted ts z ys) (append-nil b) k
Sorted-append ts b (x ∷ xs) ys h k = (
  h.0,
  Sorted-append ts (b ++ (x ∷ [])) xs ys h.1
      (subst (λ z. Sorted ts z ys) (sym (append_assoc b (x ∷ []) xs)) k),
)

Placed-append : (t : DataType) (xs ys : List GenNodeId) → Placed t xs → Placed t (xs ++ ys)
Placed-append (base_data_type name id) xs ys h = tt
Placed-append (enum_data_type name id fs) xs ys (l, r, e) =
    (l, r ++ ys, ap (λ z. z ++ ys) e ∙ append_assoc l (id ∷ r) ys)
Placed-append (structure_data_type name id fs) xs ys (l, r, e) =
    (l, r ++ ys, ap (λ z. z ++ ys) e ∙ append_assoc l (id ∷ r) ys)

Sorted-push :
    (ts : Types) (t : DataType) (order : List GenNodeId)
    → find_type (id_of t) ts ≡ some t
    → Depends ts order t
    → Sorted ts [] order
    → Sorted ts [] (order ++ (id_of t ∷ []))
Sorted-push ts t order f d s = Sorted-append ts [] order (id_of t ∷ []) s ((t, f, d), tt)

build_fields_step :
    (visit : DataType → List GenNodeId → Option Ordering) (ts : Types)
    (f : StructureDefinitionField) (fs : List StructureDefinitionField) (u : DataType)
    (order next : List GenNodeId)
    → find_type f.data_type ts ≡ some u
    → visit u order ≡ some (true, next)
    → build_fields visit ts (f ∷ fs) order ≡ build_fields visit ts fs next
unfolding build_fields
build_fields_step visit ts f fs u order next found e = rw (found, e, build_fields) refl

module _ (ts : Types) (rank : GenNodeId → ℕ) (typed : IsTypes ts) (ranked : Ranked ts rank) where
  -- What one call of buildOrder does to the list.
  abbrev Extends : List GenNodeId → Option Ordering → (List GenNodeId → Type 0) → Type 0
  Extends order r Holds =
      (new : List GenNodeId) × (r ≡ some (true, order ++ new))
      × Sorted ts [] (order ++ new)
      × Holds (order ++ new)

  Visits : ℕ → Type 0
  Visits n =
      (t : DataType) (order : List GenNodeId)
      → find_type (id_of t) ts ≡ some t
      → rank (id_of t) < n
      → Sorted ts [] order
      → Extends order (build_order n ts t order) (Placed t)

  build_fields-Extends :
      (n bound : ℕ) (fs : List StructureDefinitionField) (order : List GenNodeId)
      → Visits n
      → bound ≤ n
      → All (Below ts rank bound) fs
      → Sorted ts [] order
      → Extends order (build_fields (build_order n ts) ts fs order) (λ o. All (Ready ts o) fs)
  unfolding Visits build_fields
  build_fields-Extends n bound [] order visit le h s = (
    [],
    ap (λ z. some (true, z)) (sym (append-nil order)),
    subst (Sorted ts []) (sym (append-nil order)) s,
    tt,
  )
  build_fields-Extends n bound (f ∷ fs) order visit le ((u, found, lt), h) s =
      let own = find_type-id_of f.data_type ts u typed found in
      let (a, ea, sa, pa) =
        visit u order (subst (λ k. find_type k ts ≡ some u) (sym own) found) (omega arith) s in
      let (b, eb, sb, rb) = build_fields-Extends n bound fs (order ++ a) visit le h sa in
      (
        a ++ b,
        build_fields_step (build_order n ts) ts f fs u order (order ++ a) found ea
            ∙ eb
            ∙ ap (λ z. some (true, z)) (append_assoc order a b),
        subst (Sorted ts []) (append_assoc order a b) sb,
        subst (λ z. All (Ready ts z) (f ∷ fs)) (append_assoc order a b)
            ((u, found, Placed-append u (order ++ a) b pa), rb),
      )

  -- When the types are ranked, so that none contains itself, the fuel is above the rank of a type of
  -- the map, and the list that it is given is sorted, buildOrder ends with `true`; it only appends to the list; every id of the list is that of
  -- a known type that stands after the types of its fields; and the type itself is in the list,
  -- unless it is a base type.
  pub build_order-Sorted :
      (n : ℕ) (t : DataType) (order : List GenNodeId)
      → find_type (id_of t) ts ≡ some t
      → rank (id_of t) < n
      → Sorted ts [] order
      → (new : List GenNodeId) × (build_order n ts t order ≡ some (true, order ++ new))
        × Sorted ts [] (order ++ new)
        × Placed t (order ++ new)
  unfolding build_order push_after Visits
  build_order-Sorted zero t order f lt s = absurd (omega arith)
  build_order-Sorted (suc n) (base_data_type name id) order f lt s = (
    [],
    ap (λ z. some (true, z)) (sym (append-nil order)),
    subst (Sorted ts []) (sym (append-nil order)) s,
    tt,
  )
  build_order-Sorted (suc n) (enum_data_type name id fs) order f lt s =
      (id ∷ [], refl, Sorted-push ts (enum_data_type name id fs) order f tt s, (order, [], refl))
  build_order-Sorted (suc n) (structure_data_type name id fs) order f lt s =
      let (a, ea, sa, ra) =
        build_fields-Extends n (rank id) fs order (build_order-Sorted n) (omega arith)
          (ranked (structure_data_type name id fs) f) s in
      (
        a ++ (id ∷ []),
        rw ea (ap (λ z. some (true, z)) (append_assoc order a (id ∷ []))),
        subst (Sorted ts []) (append_assoc order a (id ∷ []))
            (Sorted-push ts (structure_data_type name id fs) (order ++ a) f ra sa),
        (order ++ a, [], sym (append_assoc order a (id ∷ []))),
      )

-- The defect of buildOrder: a structure with a first field of its own type, as OPC UA allows, makes
-- it call itself without end: no amount of fuel suffices.
pub build_order_loops :
    (ts : Types) (name : Bytes) (id : GenNodeId) (f : StructureDefinitionField)
    (fs : List StructureDefinitionField)
    → find_type f.data_type ts ≡ some (structure_data_type name id (f ∷ fs))
    → (n : ℕ) (order : List GenNodeId)
    → build_order n ts (structure_data_type name id (f ∷ fs)) order ≡ none
unfolding build_order build_fields push_after
build_order_loops ts name id f fs h zero order = refl
build_order_loops ts name id f fs h (suc n) order =
    rw (h, build_order_loops ts name id f fs h n order, build_fields) refl
