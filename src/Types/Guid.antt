-- ===== src/Types/Guid.antt =====
-- struct Guid of modernopc/include/modernopc/types/NodeId.h, with the comparison and the hash of
-- modernopc/src/types/NodeId.cpp, which both read the object's memory.
pub mod Memory
use modern_opc.Base.{
  ℕ, zero, suc, ◌*◌, ◌/◌, ◌%◌, ◌^◌, ◌<◌, ◌≡◌, Bool, List, [], ◌∷◌, ◌++◌, Bytes, bytes_eq, length,
  bit_xor,
}

pub record Guid : Type 0 where
  pub data1 : ℕ
  pub data2 : ℕ
  pub data3 : ℕ
  pub data4 : Bytes

-- The fields in the ranges of their C types, and the array with its eight elements.
pub record IsGuid (g : Guid) : Type 0 where
  pub data1_range : g.data1 < 2 ^ 32
  pub data2_range : g.data2 < 2 ^ 16
  pub data3_range : g.data3 < 2 ^ 16
  pub data4_size : length g.data4 ≡ 8

-- An unsigned field of `k` bytes in memory, lowest byte first.
unfoldable pub le_bytes : ℕ → ℕ → Bytes
le_bytes zero n = []
le_bytes (suc k) n = (n % 256) ∷ le_bytes k (n / 256)

-- The sixteen bytes of the object; the layout has no padding.
unfoldable pub guid_memory : Guid → Bytes
guid_memory g = le_bytes 4 g.data1 ++ (le_bytes 2 g.data2 ++ (le_bytes 2 g.data3 ++ g.data4))

-- Guid::operator==, a memcmp of the two objects
unfoldable pub guid_eq : Guid → Guid → Bool
guid_eq a b = bytes_eq (guid_memory a) (guid_memory b)

abbrev pub fnv_prime_32 : ℕ
fnv_prime_32 = 16777619

-- The loop of ByteString_hash over a 64-bit `size_t`.
fnv_loop : ℕ → Bytes → ℕ
fnv_loop fnv [] = fnv
fnv_loop fnv (b ∷ buf) = fnv_loop ((bit_xor fnv b * fnv_prime_32) % 2 ^ 64) buf

unfoldable pub byte_string_hash : Bytes → ℕ
unfolding fnv_loop
byte_string_hash buf = fnv_loop 0 buf

-- getHash(const Guid &)
unfoldable pub guid_hash : Guid → ℕ
guid_hash g = byte_string_hash (guid_memory g)
