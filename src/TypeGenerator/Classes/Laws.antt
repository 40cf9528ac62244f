-- ===== src/TypeGenerator/Classes/Laws.antt =====
-- The loop of generateClass (TypeGenerator/TypeGenerator.h) over the order of buildOrder.
use modern_opc.Base.{
  ℕ, ◌≡◌, refl, sym, ap, subst, ◌<◌, true, false, if◌then◌else◌, Bool-cases, Outcome, ok, ◌>>=◌,
  List, [], ◌∷◌, ◌++◌, some, All, append-nil, append_assoc, Returns, Returns-ok, Returns-map, ◌⊎◌,
  inl, inr,
}
use modern_opc.TypeGenerator.Ids.{GenNodeId, gen_node_id_eq, gen_node_id_eq_iff}
use modern_opc.TypeGenerator.DataTypes.{
  StructureDefinitionField, DataType, base_data_type, enum_data_type, structure_data_type, Types,
  find_type, id_of, IsTypes,
}
use modern_opc.TypeGenerator.Order.Laws.{
  Listed, Placed, Ready, Depends, Sorted, Ranked, build_order-Sorted,
}
use modern_opc.TypeGenerator.Emit.{
  structure_conversions, structure_from_conversion, includes_header, includes_impl,
}
use modern_opc.TypeGenerator.Classes.{
  append_both, generate, structure_impl, is_generated, TypeGenerator, generate_one,
  generate_ordered, generate_class,
}

-- The class of the type has been written, or the type needs none.
abbrev pub Has : List GenNodeId → DataType → Type 0
Has gs (base_data_type name id) = Unit {0}
Has gs t = is_generated (id_of t) gs ≡ true

abbrev pub FieldsHad : Types → List GenNodeId → DataType → Type 0
FieldsHad ts gs (structure_data_type name id fs) =
    All (λ f. (u : DataType) × (find_type f.data_type ts ≡ some u) × Has gs u) fs
FieldsHad ts gs t = Unit {0}

-- The ids of the classes that were written, the last one first: no id twice, and each after the
-- types of its fields.
abbrev pub Complete : Types → List GenNodeId → Type 0
Complete ts [] = Unit {0}
Complete ts (id ∷ gs) =
    (is_generated id gs ≡ false)
    × ((t : DataType) × (find_type id ts ≡ some t) × FieldsHad ts gs t)
    × Complete ts gs

abbrev Covers : List GenNodeId → List GenNodeId → Type 0
Covers gs before = (j : GenNodeId) → Listed j before → is_generated j gs ≡ true

is_generated_self : (id : GenNodeId) (gs : List GenNodeId) → is_generated id (id ∷ gs) ≡ true
unfolding is_generated
is_generated_self id gs = rw ((gen_node_id_eq_iff id id).1 refl) refl

is_generated_more :
    (j id : GenNodeId) (gs : List GenNodeId)
    → is_generated j gs ≡ true
    → is_generated j (id ∷ gs) ≡ true
unfolding is_generated
is_generated_more j id gs h = elim (Bool-cases (gen_node_id_eq id j)) [
  | inl e ↦ rw e refl
  | inr e ↦ rw e h
]

cons-parts : {x y : GenNodeId} {xs ys : List GenNodeId} → x ∷ xs ≡ y ∷ ys → (x ≡ y) × (xs ≡ ys)
cons-parts e = (cc e, cc e)

Listed-snoc :
    (xs : List GenNodeId) (id j : GenNodeId) → Listed j (xs ++ (id ∷ [])) → Listed j xs ⊎ (j ≡ id)
Listed-snoc [] id j ([], r, e) = inr (sym (cons-parts e).0)
Listed-snoc [] id j (y ∷ [], r, e) = absurd (cc (cons-parts e).1)
Listed-snoc [] id j (y ∷ z ∷ l, r, e) = absurd (cc (cons-parts e).1)
Listed-snoc (x ∷ xs) id j ([], r, e) = inl ([], xs, ap (λ k. k ∷ xs) (cons-parts e).0)
Listed-snoc (x ∷ xs) id j (y ∷ l, r, e) = elim (Listed-snoc xs id j (l, r, (cons-parts e).1)) [
  | inl (l', r', e') ↦ inl (x ∷ l', r', ap (λ k. x ∷ k) e')
  | inr p ↦ inr p
]

abbrev Ends : {A : Type 0} → Outcome A → Type 0
Ends = Returns (λ s. Unit {0})

structure_from_conversion-Ends :
    (ts : Types) (f : StructureDefinitionField) (u : DataType)
    → find_type f.data_type ts ≡ some u
    → Ends (structure_from_conversion ts f)
unfolding structure_from_conversion
structure_from_conversion-Ends ts f u e = rw (e, structure_from_conversion) tt

structure_conversions-Ends :
    (ts : Types) (before : List GenNodeId) (fs : List StructureDefinitionField)
    → All (Ready ts before) fs
    → Ends (structure_conversions ts fs)
unfolding structure_conversions
structure_conversions-Ends ts before [] h = tt
structure_conversions-Ends ts before (f ∷ fs) ((u, e, p), h) =
    let (s, es, _) =
      Returns-ok (λ s. Unit {0}) (structure_from_conversion ts f)
        (structure_from_conversion-Ends ts f u e) in
    let (r, er, _) =
      Returns-ok (λ s. Unit {0}) (structure_conversions ts fs)
        (structure_conversions-Ends ts before fs h) in
    rw (es, er, structure_conversions) tt

generate-Ends :
    (ts : Types) (before : List GenNodeId) (t : DataType)
    → Depends ts before t
    → Ends (generate ts t)
unfolding generate structure_impl
generate-Ends ts before (base_data_type name id) d = tt
generate-Ends ts before (enum_data_type name id fs) d = tt
generate-Ends ts before (structure_data_type name id fs) d =
    let (s, e, _) =
      Returns-ok (λ s. Unit {0}) (structure_conversions ts fs)
        (structure_conversions-Ends ts before fs d) in
    rw (e, structure_impl, generate) tt

-- The placed types of the fields have been written when the list before is covered.
Has-Placed :
    (gs before : List GenNodeId) (u : DataType) → Covers gs before → Placed u before → Has gs u
Has-Placed gs before (base_data_type name id) c p = tt
Has-Placed gs before (enum_data_type name id fs) c p = c id p
Has-Placed gs before (structure_data_type name id fs) c p = c id p

FieldsHad-Depends :
    (ts : Types) (gs before : List GenNodeId) (t : DataType)
    → Covers gs before
    → Depends ts before t
    → FieldsHad ts gs t
FieldsHad-Depends ts gs before (base_data_type name id) c d = tt
FieldsHad-Depends ts gs before (enum_data_type name id fs) c d = tt
FieldsHad-Depends ts gs before (structure_data_type name id fs) c d = go fs d
  where
    go :
        (fs : List StructureDefinitionField)
        → All (Ready ts before) fs
        → All (λ f. (u : DataType) × (find_type f.data_type ts ≡ some u) × Has gs u) fs
    go [] h = tt
    go (f ∷ fs) ((u, e, p), h) = ((u, e, Has-Placed gs before u c p), go fs h)

-- What a run over a part of the order leads to.
abbrev Reaches : Types → List GenNodeId → Outcome TypeGenerator → Type 0
Reaches ts all = Returns (λ h. Complete ts h.generated × Covers h.generated all)

generate_one-Reaches :
    (ts : Types) (before : List GenNodeId) (id : GenNodeId) (t : DataType) (g : TypeGenerator)
    → find_type id ts ≡ some t
    → Depends ts before t
    → is_generated id g.generated ≡ false
    → Complete ts g.generated
    → Covers g.generated before
    → Reaches ts (before ++ (id ∷ [])) (generate_one ts id g)
unfolding generate_one
generate_one-Reaches ts before id t g f d n c k =
    let (s, e, _) = Returns-ok (λ s. Unit {0}) (generate ts t) (generate-Ends ts before t d) in
    rw (f, e, generate_one)
      (
        (n, (t, f, FieldsHad-Depends ts g.generated before t k d), c),
        λ j l. elim (Listed-snoc before id j l) [
          | inl m ↦ is_generated_more j id g.generated (k j m)
          | inr m ↦
              subst (λ x. is_generated x (id ∷ g.generated) ≡ true) (sym m)
                (is_generated_self id g.generated)
        ],
      )

-- One round of the loop.
abbrev pub one_round : Types → GenNodeId → TypeGenerator → Outcome TypeGenerator
one_round ts id g = if is_generated id g.generated then ok g else generate_one ts id g

one_round-Reaches :
    (ts : Types) (before : List GenNodeId) (id : GenNodeId) (t : DataType) (g : TypeGenerator)
    → find_type id ts ≡ some t
    → Depends ts before t
    → Complete ts g.generated
    → Covers g.generated before
    → Reaches ts (before ++ (id ∷ [])) (one_round ts id g)
one_round-Reaches ts before id t g f d c k = elim (Bool-cases (is_generated id g.generated)) [
  | inl y ↦ rw y (
    c,
    λ j l. elim (Listed-snoc before id j l) [
      | inl m ↦ k j m
      | inr m ↦ subst (λ x. is_generated x g.generated ≡ true) (sym m) y
    ],
  )
  | inr n ↦ rw n (generate_one-Reaches ts before id t g f d n c k)
]

generate_ordered_step :
    (ts : Types) (id : GenNodeId) (ids : List GenNodeId) (g h : TypeGenerator)
    → one_round ts id g ≡ ok h
    → generate_ordered ts (id ∷ ids) g ≡ generate_ordered ts ids h
unfolding generate_ordered
generate_ordered_step ts id ids g h e = ap (λ r. r >>= (λ k. generate_ordered ts ids k)) e

generate_ordered-Reaches :
    (ts : Types) (before ids : List GenNodeId) (g : TypeGenerator)
    → Sorted ts before ids
    → Complete ts g.generated
    → Covers g.generated before
    → Reaches ts (before ++ ids) (generate_ordered ts ids g)
generate_ordered-Reaches ts before [] g s c k =
    unfold generate_ordered in (c, λ j l. k j (subst (Listed j) (append-nil before) l))
generate_ordered-Reaches ts before (id ∷ ids) g ((t, f, d), s) c k =
    let (h, e, (ch, kh)) =
      Returns-ok (λ h. Complete ts h.generated × Covers h.generated (before ++ (id ∷ [])))
        (one_round ts id g) (one_round-Reaches ts before id t g f d c k) in
    subst (λ z. Reaches ts z (generate_ordered ts (id ∷ ids) g)) (append_assoc before (id ∷ []) ids)
      (subst (Reaches ts ((before ++ (id ∷ [])) ++ ids))
        (sym (generate_ordered_step ts id ids g h e))
        (generate_ordered-Reaches ts (before ++ (id ∷ [])) ids h s ch kh))

-- When the types of the map are ranked, so that none contains itself, and the fuel is above the type's
-- rank, generateClass ends, with no null pointer followed. If no class was written twice and each after
-- the types of its fields, then that holds afterwards too, and the class of the type was written, as
-- the list of the generated ids says.
pub generate_class-Complete :
    (ts : Types) (rank : GenNodeId → ℕ) (fuel : ℕ) (t : DataType) (g : TypeGenerator)
    → IsTypes ts
    → Ranked ts rank
    → find_type (id_of t) ts ≡ some t
    → rank (id_of t) < fuel
    → Complete ts g.generated
    → (r : Outcome TypeGenerator) × (generate_class fuel ts t g ≡ some r)
      × Returns (λ h. Complete ts h.generated × Has h.generated t) r
unfolding generate_class
generate_class-Complete ts rank fuel t g typed ranked f lt c =
    let (order, e, s, p) = build_order-Sorted ts rank typed ranked fuel t [] f lt tt in
    (
      generate_ordered ts order
          (record g { streams = append_both g.streams includes_header includes_impl }),
      rw (e, generate_class) refl,
      Returns-map (λ h. Complete ts h.generated × Covers h.generated order)
          (λ h. Complete ts h.generated × Has h.generated t) _
          (λ h r. (r.0, Has-Placed h.generated order t r.1 p))
          (generate_ordered-Reaches ts [] order
            (record g { streams = append_both g.streams includes_header includes_impl }) s c
            (λ j l. absurd (nothing j l))),
    )
  where
    nothing : (j : GenNodeId) → Listed j [] → ⊥
    nothing j ([], r, e) = cc
    nothing j (x ∷ l, r, e) = cc
