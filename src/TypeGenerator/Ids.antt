-- ===== src/TypeGenerator/Ids.antt =====
-- The generator's own class NodeId (TypeGenerator/NodeId.h, NodeId.cpp) and extractNodeId
-- (TypeGenerator/conversion.h). The class sets its type tag and its std::variant together, in its
-- constructors only, so that the tag is read off the alternative here.
pub mod Extract
use modern_opc.Base.{
  ℕ, ◌≡◌, ◌↔◌, refl, ap, Bool, true, false, ◌==◌, ◌&&◌, ◌%◌, ◌^◌, ltb, leb, if◌then◌else◌, Bytes,
  text, c_string, bytes_eq, bytes_eq_iff, ℤ, pos, negsuc, int_eq, int_eq_iff, IsInt32, to_u32,
  Outcome, ok, faults, out_of_bounds, ◌>>=◌, List, [], ◌∷◌, ◌++◌, length, drop, get_elem?, Option,
  none, some, decimal, decimal_int, atoi, arith,
}

-- std::variant<int, std::string>
pub data GenIdentifier : Type 0 where
  gen_int : ℤ → GenIdentifier
  gen_string : Bytes → GenIdentifier

pub record GenNodeId : Type 0 where
  pub ns_idx : ℕ
  pub i : GenIdentifier

pub data GenIdentifierType : Type 0 where
  gen_numeric gen_text : GenIdentifierType

-- getIdType
abbrev pub get_id_type : GenNodeId → GenIdentifierType
get_id_type id = elim id.i [ gen_int z ↦ gen_numeric | gen_string s ↦ gen_text ]

abbrev pub gen_numeric_id : ℕ → ℤ → GenNodeId
gen_numeric_id ns z = record { ns_idx = ns; i = gen_int z }

abbrev pub gen_string_id : ℕ → Bytes → GenNodeId
gen_string_id ns s = record { ns_idx = ns; i = gen_string s }

-- What follows the comparison of the namespaces in operator==.
unfoldable pub gen_identifier_eq : GenIdentifier → GenIdentifier → Bool
gen_identifier_eq (gen_int a) (gen_int b) = int_eq a b
gen_identifier_eq (gen_string s) (gen_string t) = bytes_eq s t
gen_identifier_eq _ _ = false

-- NodeId::operator==
unfoldable pub gen_node_id_eq : GenNodeId → GenNodeId → Bool
unfolding gen_identifier_eq
gen_node_id_eq a b = a.ns_idx == b.ns_idx && gen_identifier_eq a.i b.i

gen_identifier_eq_iff : (i j : GenIdentifier) → (gen_identifier_eq i j ≡ true) ↔ (i ≡ j)
unfolding gen_identifier_eq
gen_identifier_eq_iff (gen_int a) (gen_int b) =
    (λ h. ap gen_int ((int_eq_iff a b).0 h), λ h. (int_eq_iff a b).1 (cc))
gen_identifier_eq_iff (gen_string a) (gen_string b) =
    (λ h. ap gen_string ((bytes_eq_iff a b).0 h), λ h. (bytes_eq_iff a b).1 (cc))
gen_identifier_eq_iff (gen_int a) (gen_string b) = (λ h. cc, λ h. cc)
gen_identifier_eq_iff (gen_string a) (gen_int b) = (λ h. cc, λ h. cc)

pub gen_node_id_eq_iff : (a b : GenNodeId) → (gen_node_id_eq a b ≡ true) ↔ (a ≡ b)
unfolding gen_node_id_eq
gen_node_id_eq_iff a b = (
  λ h. ground (arith, gen_identifier_eq_iff a.i b.i),
  λ h. ground (arith, gen_identifier_eq_iff a.i b.i),
)

-- operator<<
unfoldable pub print_gen_node_id : GenNodeId → Bytes
print_gen_node_id id =
    text "ns="
    ++ (decimal id.ns_idx
        ++ elim id.i [ gen_int z ↦ text ";i=" ++ decimal_int z | gen_string s ↦ text ";s=" ++ s ])

-- The `char *` &s[n], which may point to the terminating NUL but not beyond.
unfoldable pub address_of : Bytes → ℕ → Outcome Bytes
address_of s n = if leb n (length s) then ok (drop n s) else faults out_of_bounds

-- s[n], where the terminating NUL may be read
unfoldable pub char_at : Bytes → ℕ → Outcome ℕ
unfolding address_of
char_at s n = do t ← address_of s n; elim t [ [] ↦ ok 0 | c ∷ t ↦ ok c ]

-- strchr(s, ';'): the text from the first semicolon on
unfoldable pub strchr_semicolon : Bytes → Option Bytes
strchr_semicolon [] = none
strchr_semicolon (c ∷ s) = if c == b';' then some (c ∷ s) else strchr_semicolon s

-- A uint16_t made of an int.
abbrev pub to_u16 : ℤ → ℕ
to_u16 z = to_u32 z % 2 ^ 16

-- NodeId(…, atoi(t)) for the text t at &s[n]
unfoldable pub numeric_at : ℕ → Bytes → ℕ → Outcome GenNodeId
unfolding address_of
numeric_at ns s n = do t ← address_of s n; z ← atoi t; ok (gen_numeric_id ns z)

-- NodeId(…, t) for the text t at &s[n]
unfoldable pub string_at : ℕ → Bytes → ℕ → Outcome GenNodeId
unfolding address_of
string_at ns s n = do t ← address_of s n; ok (gen_string_id ns t)

-- The namespace index atoi(&s[3])
unfoldable pub namespace_of : Bytes → Outcome ℕ
unfolding address_of
namespace_of s = do t ← address_of s 3; ns ← atoi t; ok (to_u16 ns)

-- The branch of a text without a semicolon.
unfoldable pub extract_in_ns0 : Bytes → Outcome GenNodeId
unfolding char_at numeric_at string_at
extract_in_ns0 s = do
  c ← char_at s 0
  if c == b'i'
      then numeric_at 0 s 2
      else if c == b's'
      then string_at 0 s 2
      else ok (gen_numeric_id 0 (pos 0))

-- The branch with a semicolon, which `p` points to.
unfoldable pub extract_with_ns : Bytes → Bytes → Outcome GenNodeId
unfolding char_at numeric_at string_at namespace_of
extract_with_ns s p = do
  c ← char_at p 1
  if c == b'i'
      then namespace_of s >>= (λ ns. numeric_at ns p 3)
      else if c == b's'
      then namespace_of s >>= (λ ns. string_at ns p 3)
      else ok (gen_numeric_id 0 (pos 0))

-- extractNodeId, of a null pointer or of the bytes at `s`, of which the text ends at the first NUL
unfoldable pub extract_node_id : Option Bytes → Outcome GenNodeId
unfolding extract_in_ns0 extract_with_ns c_string
extract_node_id none = ok (gen_numeric_id 0 (pos 0))
extract_node_id (some bytes) =
    let s = c_string bytes in
    if ltb (length s) 3
    then ok (gen_numeric_id 0 (pos 0))
    else elim (strchr_semicolon s) [ none ↦ extract_in_ns0 s | some p ↦ extract_with_ns s p ]
