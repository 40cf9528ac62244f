-- ===== src/Types/Guid/Memory.antt =====
-- The memory of a Guid, which memcmp and the hash read (modernopc/src/types/NodeId.cpp).
use modern_opc.Base.{
  ℕ, zero, suc, ◌+◌, ◌*◌, ◌/◌, ◌^◌, ◌<◌, ◌≡◌, ◌↔◌, refl, ap, true, [], ◌∷◌, ◌++◌, Bytes, bytes_eq,
  bytes_eq_sound, bytes_eq_refl, arith, length,
}
use modern_opc.Types.Guid.{
  Guid, IsGuid, le_bytes, guid_memory, guid_eq, fnv_loop, byte_string_hash, guid_hash,
}

-- The number that bytes stand for, lowest first.
le_value : Bytes → ℕ
le_value [] = 0
le_value (b ∷ s) = b + 256 * le_value s

le_value-le_bytes2 : (n : ℕ) → n < 2 ^ 16 → le_value (le_bytes 2 n) ≡ n
unfolding le_value le_bytes
le_value-le_bytes2 n h = omega arith

le_value-le_bytes4 : (n : ℕ) → n < 2 ^ 32 → le_value (le_bytes 4 n) ≡ n
unfolding le_value le_bytes
le_value-le_bytes4 n h = omega arith

length-le_bytes : (k n : ℕ) → length (le_bytes k n) ≡ k
unfolding le_bytes
length-le_bytes zero n = refl
length-le_bytes (suc k) n = ap suc (length-le_bytes k (n / 256))

-- Two concatenations whose heads are equally long agree part by part.
append_split : (s s' t t' : Bytes) → length s ≡ length s' → s ++ t ≡ s' ++ t' → (s ≡ s') × (t ≡ t')
append_split [] [] t t' h e = (refl, e)
append_split [] (b ∷ s') t t' h e = absurd (omega arith)
append_split (a ∷ s) [] t t' h e = absurd (omega arith)
append_split (a ∷ s) (b ∷ s') t t' h e =
    let r = append_split s s' t t' (omega arith) (cc) in (cc (r.0), r.1)

le_bytes2-injective : (m n : ℕ) → m < 2 ^ 16 → n < 2 ^ 16 → le_bytes 2 m ≡ le_bytes 2 n → m ≡ n
le_bytes2-injective m n hm hn e =
    cc (le_value-le_bytes2 m hm, le_value-le_bytes2 n hn, ap le_value e)

le_bytes4-injective : (m n : ℕ) → m < 2 ^ 32 → n < 2 ^ 32 → le_bytes 4 m ≡ le_bytes 4 n → m ≡ n
le_bytes4-injective m n hm hn e =
    cc (le_value-le_bytes4 m hm, le_value-le_bytes4 n hn, ap le_value e)

guid_memory-injective : (a b : Guid) → IsGuid a → IsGuid b → guid_memory a ≡ guid_memory b → a ≡ b
unfolding guid_memory
guid_memory-injective a b va vb e =
    let (e1, r1) =
      append_split (le_bytes 4 a.data1) (le_bytes 4 b.data1) _ _
        (cc (length-le_bytes 4 a.data1, length-le_bytes 4 b.data1)) e in
    let (e2, r2) =
      append_split (le_bytes 2 a.data2) (le_bytes 2 b.data2) _ _
        (cc (length-le_bytes 2 a.data2, length-le_bytes 2 b.data2)) r1 in
    let (e3, e4) =
      append_split (le_bytes 2 a.data3) (le_bytes 2 b.data3) _ _
        (cc (length-le_bytes 2 a.data3, length-le_bytes 2 b.data3)) r2 in
    let d1 = le_bytes4-injective a.data1 b.data1 va.data1_range vb.data1_range e1 in
    let d2 = le_bytes2-injective a.data2 b.data2 va.data2_range vb.data2_range e2 in
    let d3 = le_bytes2-injective a.data3 b.data3 va.data3_range vb.data3_range e3 in
    λ i. record { data1 = d1 i; data2 = d2 i; data3 = d3 i; data4 = e4 i }

-- On Guids whose fields are in range, the memcmp of Guid::operator== decides equality.
pub guid_eq_iff : (a b : Guid) → IsGuid a → IsGuid b → (guid_eq a b ≡ true) ↔ (a ≡ b)
unfolding guid_eq
guid_eq_iff a b va vb = (
  λ h. guid_memory-injective a b va vb (bytes_eq_sound _ _ h),
  λ e. cc (bytes_eq_refl (guid_memory a), ap (λ g. bytes_eq (guid_memory a) (guid_memory g)) e),
)

pub guid_eq_refl : (g : Guid) → guid_eq g g ≡ true
unfolding guid_eq
guid_eq_refl g = bytes_eq_refl (guid_memory g)

-- Guids that compare equal have one hash.
pub guid_hash_respects_eq : (a b : Guid) → guid_eq a b ≡ true → guid_hash a ≡ guid_hash b
unfolding guid_eq guid_hash
guid_hash_respects_eq a b h = ap byte_string_hash (bytes_eq_sound _ _ h)

fnv_loop-lt : (buf : Bytes) (fnv : ℕ) → fnv < 2 ^ 64 → fnv_loop fnv buf < 2 ^ 64
unfolding fnv_loop
fnv_loop-lt [] fnv h = h
fnv_loop-lt (b ∷ buf) fnv h = fnv_loop-lt buf _ (omega arith)

-- The hash fits a size_t.
pub guid_hash-lt : (g : Guid) → guid_hash g < 2 ^ 64
unfolding guid_hash byte_string_hash
guid_hash-lt g = fnv_loop-lt (guid_memory g) 0 (omega arith)
