-- ===== src/TypeGenerator/DataTypes/Laws.antt =====
-- The map of types while nodes are added to it.
use modern_opc.Base.{
  ◌≡◌, refl, ap, subst, Bool, true, false, if◌then◌else◌, Bool-cases, ok, >>=-eq-ok, ◌>>=◌, List,
  [], ◌∷◌, Option, none, some, All, inl, inr,
}
use modern_opc.TypeGenerator.Ids.{GenNodeId, gen_node_id_eq, gen_node_id_eq_iff, extract_node_id}
use modern_opc.TypeGenerator.DataTypes.{
  DataType, enum_data_type, structure_data_type, Types, find_type, insert_type, id_of, IsTypes,
  TNode, data_type_node, other_node, TDataTypeNode, TDefinition, add_node, load_nodes, enum_fields,
  structure_fields,
}

-- A later map: each type stands under its own id, and every type is still there.
abbrev pub Grows : Types → Types → Type 0
Grows ts us =
    IsTypes us
    × ((id : GenNodeId) (t : DataType) → find_type id ts ≡ some t → find_type id us ≡ some t)

find_past :
    (k id : GenNodeId) (u v : DataType) (ts : Types)
    → find_type k ts ≡ none
    → find_type id ts ≡ some v
    → find_type id ((k, u) ∷ ts) ≡ some v
unfolding find_type
find_past k id u v ts e f = elim (Bool-cases (gen_node_id_eq k id)) [
  | inl y ↦ absurd (cc (e, f, ap (λ x. find_type x ts) ((gen_node_id_eq_iff k id).0 y)))
  | inr n ↦ rw n f
]

insert_type-Grows : (t : DataType) (ts : Types) → IsTypes ts → Grows ts (insert_type t ts)
unfolding insert_type
insert_type-Grows t ts h = go (find_type (id_of t) ts) refl
  where
    go :
        (o : Option DataType)
        → find_type (id_of t) ts ≡ o
        → Grows ts (elim o [ none ↦ (id_of t, t) ∷ ts | some u ↦ ts ])
    go (some u) e = (h, λ id v f. f)
    go none e = ((refl, h), λ id v f. find_past (id_of t) id t v ts e f)

Grows-trans : (ts us vs : Types) → Grows ts us → Grows us vs → Grows ts vs
Grows-trans ts us vs (i, k) (j, m) = (j, λ id t f. m id t (k id t f))

add_data_type-Grows :
    (n : TDataTypeNode) (ts us : Types)
    → IsTypes ts
    → add_node (data_type_node n) ts ≡ ok us
    → Grows ts us
unfolding add_node
add_data_type-Grows n ts us h e = go n.definition e
  where
    inserted : (t : DataType) → ok (insert_type t ts) ≡ ok us → Grows ts us
    inserted t e = subst (Grows ts) (cc e) (insert_type-Grows t ts h)

    made :
        (b : Bool) (d : TDefinition) (id : GenNodeId)
        → (if b
            then (enum_fields d.fields
                >>= (λ fs. ok (insert_type (enum_data_type n.browse_name id fs) ts)))
            else structure_fields d.fields
              >>= (λ fs. ok (insert_type (structure_data_type n.browse_name id fs) ts)))
          ≡ ok us
        → Grows ts us
    made true d id e =
        let (fs, _, q) = >>=-eq-ok (enum_fields d.fields) _ e in
        inserted (enum_data_type n.browse_name id fs) q
    made false d id e =
        let (fs, _, q) = >>=-eq-ok (structure_fields d.fields) _ e in
        inserted (structure_data_type n.browse_name id fs) q

    go :
        (o : Option TDefinition)
        → add_node (data_type_node (record n { definition = o })) ts ≡ ok us
        → Grows ts us
    go none e = cc
    go (some d) e =
        let (id, _, q) = >>=-eq-ok (extract_node_id n.id_string) _ e in made d.is_enum d id q

add_node-Grows : (n : TNode) (ts us : Types) → IsTypes ts → add_node n ts ≡ ok us → Grows ts us
unfolding add_node
add_node-Grows (data_type_node n) ts us h e = add_data_type-Grows n ts us h e
add_node-Grows other_node ts us h e = subst (Grows ts) (cc e) (h, λ id t f. f)

-- Whatever nodes are loaded into a map in which every type stands under its own id, if loading them
-- ends without a fault then every type stands under its
-- own id, and a type that was in the map is still there under its id, never replaced.
pub load_nodes-Grows :
    (ns : List TNode) (ts us : Types) → IsTypes ts → load_nodes ns ts ≡ ok us → Grows ts us
unfolding load_nodes
load_nodes-Grows [] ts us h e = subst (Grows ts) (cc e) (h, λ id t f. f)
load_nodes-Grows (n ∷ ns) ts us h e =
    let (vs, a, b) = >>=-eq-ok (add_node n ts) _ e in
    let g = add_node-Grows n ts vs h a in Grows-trans ts vs us g (load_nodes-Grows ns vs us g.0 b)

-- What holds of every type of the map holds of a type that is found.
pub find_type-All :
    (P : DataType → Type 0) (id : GenNodeId) (ts : Types) (t : DataType)
    → All (λ e. P e.1) ts
    → find_type id ts ≡ some t
    → P t
unfolding find_type
find_type-All P id [] t h e = absurd (cc e)
find_type-All P id ((k, u) ∷ ts) t h e = go (gen_node_id_eq k id) e (find_type-All P id ts t h.1)
  where
    go :
        (b : Bool)
        → (if b then some u else find_type id ts) ≡ some t
        → (find_type id ts ≡ some t → P t)
        → P t
    go true e next = subst P (cc e) h.0
    go false e next = next e
