-- ===== src/Client/Nodesets/Laws.antt =====
-- The data types of a nodeset after Client::loadNodeset (modernopc/src/client/Client.cpp).
use modern_opc.Server.Status.{is_good}
use modern_opc.Base.{
  if◌then◌else◌, Option, none, Outcome, ℕ, zero, suc, ◌≡◌, refl, ap, ◌∙◌, ◌↔◌, inl, inr, ◌%◌, ◌^◌,
  Bool, true, false, Bool-cases, Bytes, ℤ, to_u32, Outcome, ok, List, [], ◌∷◌, map, Option, none,
  some, get_elem?, arith,
}
use modern_opc.Types.UaText.{ReadsCString}
use modern_opc.Types.NodeId.{NodeId, UaNodeId, from_node_id, from_ua_node_id}
use modern_opc.Types.NodeId.Conversion.{IsUaIdentifier, from_node_id-from_ua_node_id}
use modern_opc.Variant.{UaVariant, custom, empty, scalar}
use modern_opc.Client.{
  UaDataType, UaClient, Client, find_in_array, find_in_arrays, find_custom_data_type,
}
use modern_opc.Client.Nodesets.{
  UaLoader, set_namespace, from_json, load_nodeset, create_variant_from_json,
}

-- UA_NodeId_equal, and the field of the configuration.
pub record KeepsTypes {C : Type 0} (U : UaClient C) (L : UaLoader C) : Type 0 where
  pub node_id_equal_iff : (a b : UaNodeId) → (U.node_id_equal a b ≡ true) ↔ (a ≡ b)
  pub custom_data_types-set :
      (s : C) (arrays : List (List UaDataType))
      → U.custom_data_types (L.set_custom_data_types s arrays) ≡ arrays

module _ (equal : UaNodeId → UaNodeId → Bool)
    (decides : (a b : UaNodeId) → (equal a b ≡ true) ↔ (a ≡ b)) where
  -- The search of an array that has a type of the id finds one of that id, at a position that has it.
  find_in_array-hit :
      (ts : List UaDataType) (k : ℕ) (t : UaDataType)
      → get_elem? ts k ≡ some t
      → (j : ℕ) × (found : UaDataType) × (find_in_array equal t.type_id ts ≡ some found)
        × (get_elem? ts j ≡ some found)
        × (found.type_id ≡ t.type_id)
  unfolding find_in_array
  find_in_array-hit [] k t h = cc h
  find_in_array-hit (x ∷ xs) k t h = elim (Bool-cases (equal x.type_id t.type_id)) [
    | inl e ↦ (zero, x, rw (e, find_in_array) refl, refl, (decides x.type_id t.type_id).0 e)
    | inr e ↦ later k h e (λ j g. find_in_array-hit xs j t g)
  ]
    where
      later :
          (i : ℕ)
          → get_elem? (x ∷ xs) i ≡ some t
          → equal x.type_id t.type_id ≡ false
          → ((j : ℕ)
              → get_elem? xs j ≡ some t
              → (l : ℕ) × (found : UaDataType) × (find_in_array equal t.type_id xs ≡ some found)
                × (get_elem? xs l ≡ some found)
                × (found.type_id ≡ t.type_id))
          → (j : ℕ) × (found : UaDataType) × (find_in_array equal t.type_id (x ∷ xs) ≡ some found)
            × (get_elem? (x ∷ xs) j ≡ some found)
            × (found.type_id ≡ t.type_id)
      later zero g e ih =
          let same : x ≡ t = cc g in
          cc (e, (decides x.type_id t.type_id).1 (ap UaDataType.type_id same))
      later (suc i) g e ih =
          let (l, found, f, p, q) = ih i g in (suc l, found, rw (e, find_in_array) f, p, q)

get_elem?-map :
    {A B : Type 0} (f : A → B) (xs : List A) (k : ℕ) (x : A)
    → get_elem? xs k ≡ some x
    → get_elem? (map f xs) k ≡ some (f x)
get_elem?-map f [] k x h = cc h
get_elem?-map f (y ∷ ys) zero x h = let same : y ≡ x = cc h in ap (λ z. some (f z)) same
get_elem?-map f (y ∷ ys) (suc k) x h = get_elem?-map f ys k x h

module _ {C : Type 0} (U : UaClient C) (L : UaLoader C) where
  create_variant_lem :
      (json : Bytes) (d : NodeId) (id : UaNodeId) (t : UaDataType) (c : Client C)
      → from_node_id U.text d ≡ ok id
      → find_custom_data_type U id c ≡ some t
      → create_variant_from_json U L json d c ≡ ok (from_json L json t)
  unfolding create_variant_from_json
  create_variant_lem json d id t c e f = rw (e, create_variant_from_json) (ap answer f)
    where
      answer : Option UaDataType → Outcome UaVariant
      answer none = ok empty
      answer (some x) = ok (from_json L json x)

  -- What loadNodeset makes of a nodeset that the loader reads, for a type of its first array: it
  -- answers true; a type of that array is then found under the type's id in the namespace that was
  -- given, modulo 2^16; and createVariantFromJson of that id decodes the text by the type that was
  -- found, and gives the decoded value as a scalar of it when the status of UA_decodeJson is GOOD, and an
  -- empty variant when it is not. UA_NodeId_equal decides equality, and the type's id has no NUL byte.
  pub load_nodeset-create_variant :
      (path : Bytes) (ns : ℤ) (first : List UaDataType) (others : List (List UaDataType)) (k : ℕ)
      (t : UaDataType) (json : Bytes) (c : Client C)
      → KeepsTypes U L
      → ReadsCString U.text
      → L.load_file path ≡ (true, first ∷ others)
      → get_elem? first k ≡ some t
      → IsUaIdentifier t.type_id.identifier
      → (c' : Client C) × (j : ℕ) × (found : UaDataType) × (load_nodeset U L path ns c
          ≡ (ok true, c'))
        × (get_elem? (map (set_namespace ns) first) j ≡ some found)
        × (found.type_id ≡ record t.type_id { namespace_index = to_u32 ns % 2 ^ 16 })
        × (find_custom_data_type U found.type_id c' ≡ some found)
        × (create_variant_from_json U L json (from_ua_node_id found.type_id) c'
            ≡ ok (
                if is_good (L.decode_json json found).0
                then scalar (custom found.address) (L.decode_json json found).1
                else empty))
  unfolding load_nodeset find_custom_data_type find_in_arrays set_namespace from_json
  load_nodeset-create_variant path ns first others k t json c keeps reads loaded at_k proper =
      let arrays = map (set_namespace ns) first ∷ others in
      let (j, found, f, p, q) =
        find_in_array-hit U.node_id_equal keeps.node_id_equal_iff (map (set_namespace ns) first) k
          (set_namespace ns t) (get_elem?-map (set_namespace ns) first k t at_k) in
      let c' : Client C = record c { ua = L.set_custom_data_types c.ua arrays } in
      let found_again : find_custom_data_type U (set_namespace ns t).type_id c' ≡ some found =
        rw (keeps.custom_data_types-set c.ua arrays, f, find_custom_data_type, find_in_arrays)
          refl in
      (
        c',
        j,
        found,
        rw (loaded, load_nodeset) refl,
        p,
        q,
        ap (λ id. find_custom_data_type U id c') q ∙ found_again,
        ap (λ id. create_variant_from_json U L json (from_ua_node_id id) c') q
            ∙ create_variant_lem json (from_ua_node_id (set_namespace ns t).type_id)
                (set_namespace ns t).type_id found c'
                (from_node_id-from_ua_node_id U.text (set_namespace ns t).type_id reads
                  (omega arith) proper)
                found_again,
      )
