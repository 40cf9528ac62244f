-- ===== src/TypeGenerator/Ids/Extract.antt =====
-- extractNodeId (TypeGenerator/conversion.h) on texts that operator<< printed.
use modern_opc.Base.{
  ℕ, ◌≡◌, refl, ap, ◌∙◌, ◌<◌, ◌≤◌, ◌^◌, Bytes, text, ℤ, pos, IsInt32, negsuc, suc, ltb, false,
  IsNulFree, c_string_id, to_u32, ok, faults, out_of_bounds, [], ◌∷◌, ◌++◌, length, drop, some,
  decimal, decimal_int, decimal-digits, IsDigit, All, All-append, append-nil, subst, atoi,
  atoi-decimal_int, arith,
}
use modern_opc.TypeGenerator.Ids.{
  GenIdentifier, gen_int, gen_string, GenNodeId, print_gen_node_id, address_of, char_at,
  strchr_semicolon, to_u16, numeric_at, string_at, namespace_of, extract_with_ns, extract_node_id,
  gen_numeric_id, gen_string_id,
}

strchr-digits : (s t : Bytes) → All IsDigit s → strchr_semicolon (s ++ (b';' ∷ t)) ≡ some (b';' ∷ t)
unfolding strchr_semicolon
strchr-digits [] t h = refl
strchr-digits (c ∷ s) t h = ground (arith, strchr-digits s t h.1)

decimal-IsDigits : (n : ℕ) → All IsDigit (decimal n)
decimal-IsDigits n = let (c, s, e, d) = decimal-digits n in rw e d

strchr-print :
    (n : ℕ) (t : Bytes)
    → strchr_semicolon (text "ns=" ++ (decimal n ++ (b';' ∷ t))) ≡ some (b';' ∷ t)
unfolding strchr_semicolon
strchr-print n t = strchr-digits (decimal n) t (decimal-IsDigits n)

address_of-drop : (s : Bytes) (n : ℕ) → n ≤ length s → address_of s n ≡ ok (drop n s)
unfolding address_of
address_of-drop s n h = ground arith

char_at_1 : (c d : ℕ) (s : Bytes) → char_at (c ∷ d ∷ s) 1 ≡ ok d
unfolding char_at
char_at_1 c d s = rw (address_of-drop (c ∷ d ∷ s) 1 (omega arith)) refl

atoi-decimal : (n : ℕ) (t : Bytes) → n < 2 ^ 16 → atoi (decimal n ++ (b';' ∷ t)) ≡ ok (pos n)
unfolding decimal_int
atoi-decimal n t h = atoi-decimal_int (pos n) (b';' ∷ t) (omega arith) refl

to_u16_id : (n : ℕ) → n < 2 ^ 16 → to_u16 (pos n) ≡ n
unfolding to_u32
to_u16_id n h = omega arith

namespace_of-print :
    (n : ℕ) (t : Bytes) → n < 2 ^ 16 → namespace_of (text "ns=" ++ (decimal n ++ (b';' ∷ t))) ≡ ok n
unfolding namespace_of
namespace_of-print n t h =
    rw
      (
        address_of-drop (text "ns=" ++ (decimal n ++ (b';' ∷ t))) 3 (omega arith),
        atoi-decimal n t h,
        namespace_of,
      )
      (ap (λ k. ok k) (to_u16_id n h))

numeric_at-print :
    (ns : ℕ) (z : ℤ)
    → IsInt32 z
    → numeric_at ns (text ";i=" ++ decimal_int z) 3 ≡ ok (gen_numeric_id ns z)
unfolding numeric_at
numeric_at-print ns z h =
    rw (address_of-drop (text ";i=" ++ decimal_int z) 3 (omega arith), read, numeric_at) refl
  where
    read : atoi (decimal_int z) ≡ ok z
    read = subst (λ s. atoi s ≡ ok z) (append-nil (decimal_int z)) (atoi-decimal_int z [] h tt)

string_at-print : (ns : ℕ) (s : Bytes) → string_at ns (text ";s=" ++ s) 3 ≡ ok (gen_string_id ns s)
unfolding string_at
string_at-print ns s = rw (address_of-drop (text ";s=" ++ s) 3 (omega arith), string_at) refl

abbrev pub IsPrintable : GenIdentifier → Type 0
IsPrintable (gen_int z) = IsInt32 z
IsPrintable (gen_string s) = IsNulFree s

-- A node id whose namespace index is a uint16_t, whose number is an int, and whose text has no NUL.
abbrev pub IsGenNodeId : GenNodeId → Type 0
IsGenNodeId id = (id.ns_idx < 2 ^ 16) × IsPrintable id.i

-- What is printed has no NUL byte.
digits-IsNulFree : (s : Bytes) → All IsDigit s → IsNulFree s
digits-IsNulFree [] h = tt
digits-IsNulFree (c ∷ s) h = (ground (arith, h.0), digits-IsNulFree s h.1)

decimal-IsNulFree : (n : ℕ) → IsNulFree (decimal n)
decimal-IsNulFree n = digits-IsNulFree (decimal n) (decimal-IsDigits n)

decimal_int-IsNulFree : (z : ℤ) → IsNulFree (decimal_int z)
unfolding decimal_int
decimal_int-IsNulFree (pos n) = decimal-IsNulFree n
decimal_int-IsNulFree (negsuc n) = (omega arith, decimal-IsNulFree (suc n))

with_ns-IsNulFree : (n : ℕ) (t : Bytes) → IsNulFree t → IsNulFree (text "ns=" ++ (decimal n ++ t))
with_ns-IsNulFree n t h = (omega arith, (omega arith, (omega arith, rest)))
  where
    rest : IsNulFree (decimal n ++ t)
    rest = All-append (λ c. 0 < c) (decimal n) t (decimal-IsNulFree n) h

extract_long :
    (s p : Bytes)
    → IsNulFree s
    → 3 ≤ length s
    → strchr_semicolon s ≡ some p
    → extract_node_id (some s) ≡ extract_with_ns s p
unfolding extract_node_id
extract_long s p free h e =
    rw (c_string_id s free, long, e, extract_node_id)
      (ap (λ t. extract_with_ns t p) (c_string_id s free))
  where
    long : ltb (length s) 3 ≡ false
    long = ground arith

extract_number :
    (s p : Bytes) (n : ℕ)
    → char_at p 1 ≡ ok b'i'
    → namespace_of s ≡ ok n
    → extract_with_ns s p ≡ numeric_at n p 3
unfolding extract_with_ns
extract_number s p n c h = rw (c, h) refl

extract_text :
    (s p : Bytes) (n : ℕ)
    → char_at p 1 ≡ ok b's'
    → namespace_of s ≡ ok n
    → extract_with_ns s p ≡ string_at n p 3
unfolding extract_with_ns
extract_text s p n c h = rw (c, h) refl

extract-print_parts :
    (n : ℕ) (i : GenIdentifier)
    → n < 2 ^ 16
    → IsPrintable i
    → extract_node_id (some (print_gen_node_id (record { ns_idx = n; i = i })))
      ≡ ok (record { ns_idx = n; i = i })
unfolding print_gen_node_id
extract-print_parts n (gen_int z) h k =
    extract_long _ (text ";i=" ++ decimal_int z)
      (with_ns-IsNulFree n (text ";i=" ++ decimal_int z)
        (omega arith, (omega arith, (omega arith, decimal_int-IsNulFree z))))
      (omega arith) (strchr-print n (text "i=" ++ decimal_int z))
    ∙ extract_number _ _ n (char_at_1 b';' b'i' (b'=' ∷ decimal_int z))
        (namespace_of-print n (text "i=" ++ decimal_int z) h)
    ∙ numeric_at-print n z k
extract-print_parts n (gen_string s) h k =
    extract_long _ (text ";s=" ++ s)
      (with_ns-IsNulFree n (text ";s=" ++ s) (omega arith, (omega arith, (omega arith, k))))
      (omega arith) (strchr-print n (text "s=" ++ s))
    ∙ extract_text _ _ n (char_at_1 b';' b's' (b'=' ∷ s)) (namespace_of-print n (text "s=" ++ s) h)
    ∙ string_at-print n s

-- extractNodeId undoes operator<< of a node id whose namespace index is a uint16_t and whose
-- identifier is an int or a text without NUL bytes; the text may have semicolons in it.
pub extract_node_id-print_gen_node_id :
    (id : GenNodeId) → IsGenNodeId id → extract_node_id (some (print_gen_node_id id)) ≡ ok id
extract_node_id-print_gen_node_id id h = extract-print_parts id.ns_idx id.i h.0 h.1

cut_off :
    (n c : ℕ)
    → strchr_semicolon (text "ns=" ++ (decimal n ++ (b';' ∷ c ∷ []))) ≡ some (b';' ∷ c ∷ [])
cut_off n c = strchr-print n (c ∷ [])

no_number : (n : ℕ) → numeric_at n (b';' ∷ b'i' ∷ []) 3 ≡ faults out_of_bounds
unfolding numeric_at address_of
no_number n = refl

no_string : (n : ℕ) → string_at n (b';' ∷ b's' ∷ []) 3 ≡ faults out_of_bounds
unfolding string_at address_of
no_string n = refl

-- The defect of extractNodeId: a text that ends right after `;i` or `;s`, where `ns=` and an index below
-- 2^16 stand before, passes its length test, and the function then reads beyond the terminating NUL.
pub extract_node_id_overruns :
    (n : ℕ)
    → n < 2 ^ 16
    → (extract_node_id (some (text "ns=" ++ (decimal n ++ text ";i"))) ≡ faults out_of_bounds)
      × (extract_node_id (some (text "ns=" ++ (decimal n ++ text ";s"))) ≡ faults out_of_bounds)
extract_node_id_overruns n h = (
  extract_long _ (b';' ∷ b'i' ∷ [])
        (with_ns-IsNulFree n (text ";i") (omega arith, (omega arith, tt))) (omega arith)
        (cut_off n b'i')
      ∙ extract_number _ _ n (char_at_1 b';' b'i' []) (namespace_of-print n (b'i' ∷ []) h)
      ∙ no_number n,
  extract_long _ (b';' ∷ b's' ∷ [])
        (with_ns-IsNulFree n (text ";s") (omega arith, (omega arith, tt))) (omega arith)
        (cut_off n b's')
      ∙ extract_text _ _ n (char_at_1 b';' b's' []) (namespace_of-print n (b's' ∷ []) h)
      ∙ no_string n,
)
