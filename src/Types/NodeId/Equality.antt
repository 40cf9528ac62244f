-- ===== src/Types/NodeId/Equality.antt =====
-- NodeId::operator== and getHash (modernopc/src/types/NodeId.cpp).
use modern_opc.Base.{
  Decides, Decides-of_test, ◌≡◌, inl, inr, refl, ap, true, ◌==◌, ==_iff, Bool-cases, bytes_eq,
  bytes_eq_iff, int_eq, int_eq_iff, ok, arith, ◌↔◌, bytes_eq_sound, subst, sym,
}
use modern_opc.Types.Guid.{guid_eq}
use modern_opc.Types.Guid.Memory.{guid_eq_iff, guid_hash_respects_eq}
use modern_opc.Types.NodeId.{
  IdentifierType, numeric, string, guid, byte_string, Identifier, int_id, string_id, guid_id,
  NodeId, Holds, IsNodeId, get_int, get_string, get_guid, type_eq, identifier_eq, node_id_eq,
  StdHash, identifier_hash, get_hash,
}

identifier_eq-Decides :
    (t : IdentifierType) (i j : Identifier)
    → Holds t i
    → Holds t j
    → Decides (identifier_eq t i j) i j
unfolding identifier_eq get_int get_string get_guid
identifier_eq-Decides numeric (int_id a) (int_id b) hi hj =
    Decides-of_test (int_eq a b) int_id a b (int_eq_iff a b) (λ h. cc)
identifier_eq-Decides string (string_id a) (string_id b) hi hj =
    Decides-of_test (bytes_eq a b) string_id a b (bytes_eq_iff a b) (λ h. cc)
identifier_eq-Decides byte_string (string_id a) (string_id b) hi hj =
    Decides-of_test (bytes_eq a b) string_id a b (bytes_eq_iff a b) (λ h. cc)
identifier_eq-Decides guid (guid_id a) (guid_id b) hi hj =
    Decides-of_test (guid_eq a b) guid_id a b (guid_eq_iff a b hi hj) (λ h. cc)
identifier_eq-Decides _ _ _ hi hj = ground arith

type_eq_iff : (s t : IdentifierType) → (type_eq s t ≡ true) ↔ (s ≡ t)
unfolding type_eq
type_eq_iff numeric numeric = (λ h. refl, λ h. refl)
type_eq_iff string string = (λ h. refl, λ h. refl)
type_eq_iff guid guid = (λ h. refl, λ h. refl)
type_eq_iff byte_string byte_string = (λ h. refl, λ h. refl)
type_eq_iff _ _ = (λ h. cc, λ h. cc)

same_tag-Decides :
    (a b : NodeId)
    → a.ns_idx ≡ b.ns_idx
    → a.type ≡ b.type
    → Decides (identifier_eq a.type a.i b.i) a.i b.i
    → Decides (identifier_eq a.type a.i b.i) a b
same_tag-Decides a b n t (inl (r, e)) = inl (r, λ i. record { ns_idx = n i; type = t i; i = e i })
same_tag-Decides a b n t (inr (r, d)) = inr (r, λ e. d (ap (λ (x : NodeId). x.i) e))

-- On node ids that are well formed, NodeId::operator== returns, and it answers true exactly when
-- the two are the same.
pub node_id_eq-Decides : (a b : NodeId) → IsNodeId a → IsNodeId b → Decides (node_id_eq a b) a b
unfolding node_id_eq
node_id_eq-Decides a b va vb = elim (Bool-cases (a.ns_idx == b.ns_idx)) [
  | inr n ↦ rw n (inr (refl, λ e. ground (arith, ap (λ (x : NodeId). x.ns_idx) e)))
  | inl n ↦ elim (Bool-cases (type_eq a.type b.type)) [
    | inr t ↦
        rw (n, t)
          (inr (refl, λ e. cc (t, (type_eq_iff a.type b.type).1 (ap (λ (x : NodeId). x.type) e))))
    | inl t ↦
        rw (n, t)
          (let te = (type_eq_iff a.type b.type).0 t in
            same_tag-Decides a b ((==_iff _ _).0 n) te (
              identifier_eq-Decides a.type a.i b.i va.holds
                (subst (λ s. Holds s b.i) (sym te) vb.holds)))
  ]
]

identifier_eq-hash :
    (std : StdHash) (t : IdentifierType) (i j : Identifier)
    → identifier_eq t i j ≡ ok true
    → identifier_hash std i ≡ identifier_hash std j
unfolding identifier_eq identifier_hash get_int get_string get_guid
identifier_eq-hash std numeric (int_id a) (int_id b) h =
    cc (ap std.hash_int ((int_eq_iff a b).0 (cc)))
identifier_eq-hash std string (string_id a) (string_id b) h =
    cc (ap std.hash_string (bytes_eq_sound a b (cc)))
identifier_eq-hash std byte_string (string_id a) (string_id b) h =
    cc (ap std.hash_string (bytes_eq_sound a b (cc)))
identifier_eq-hash std guid (guid_id a) (guid_id b) h = cc (guid_hash_respects_eq a b (cc))
identifier_eq-hash std _ _ _ h = cc

-- Whatever the hash functions of the standard library are, two node ids that compare equal hash
-- alike: what std::unordered_map<NodeId, T> needs of std::hash<NodeId>. No range is assumed.
pub get_hash_respects_eq :
    (std : StdHash) (a b : NodeId) → node_id_eq a b ≡ ok true → get_hash std a ≡ get_hash std b
unfolding node_id_eq get_hash
get_hash_respects_eq std a b h = ground (arith, identifier_eq-hash std a.type a.i b.i)
