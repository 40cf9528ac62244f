-- ===== src/Base/Text.antt =====
-- std::string as a list of bytes, and the C string that its `c_str()` shows.
use Prim.Native.Char.{code}
use Prim.Native.Nat.{ℕ, zero, suc, ◌<◌}
use Prim.Native.String.{String}
use mathlib.Core.Path.{◌≡◌, refl, ap}
use mathlib.Core.Logic.{◌↔◌}
use mathlib.Core.Bool.{Bool, true, false, ◌&&◌}
use mathlib.Core.List.{List, [], ◌∷◌}
use native.Mathlib.Omega.{arith}
use modern_opc.Base.Tests.{◌==◌}
use modern_opc.Base.Lists.{All}

abbrev pub Bytes : Type 0
Bytes = List ℕ

-- The bytes of an ASCII literal.
abbrev pub text : String → Bytes
text String.[] = []
text (String.◌∷◌ c s) = code c ∷ text s

-- std::string ==, and memcmp on two blocks of one size
unfoldable pub bytes_eq : Bytes → Bytes → Bool
bytes_eq [] [] = true
bytes_eq (a ∷ s) (b ∷ t) = a == b && bytes_eq s t
bytes_eq _ _ = false

pub bytes_eq_sound : (s t : Bytes) → bytes_eq s t ≡ true → s ≡ t
unfolding bytes_eq
bytes_eq_sound [] [] h = refl
bytes_eq_sound [] (b ∷ t) h = cc
bytes_eq_sound (a ∷ s) [] h = cc
bytes_eq_sound (a ∷ s) (b ∷ t) h = ground (arith, bytes_eq_sound s t)

pub bytes_eq_refl : (s : Bytes) → bytes_eq s s ≡ true
unfolding bytes_eq
bytes_eq_refl [] = refl
bytes_eq_refl (a ∷ s) = ground (arith, bytes_eq_refl s)

pub bytes_eq_iff : (s t : Bytes) → (bytes_eq s t ≡ true) ↔ (s ≡ t)
bytes_eq_iff s t = (bytes_eq_sound s t, λ e. cc (bytes_eq_refl s, ap (bytes_eq s) e))

-- What a reader that stops at the first NUL sees of the text.
unfoldable pub c_string : Bytes → Bytes
c_string [] = []
c_string (zero ∷ s) = []
c_string (suc c ∷ s) = suc c ∷ c_string s

-- A text with no NUL byte in it.
abbrev pub IsNulFree : Bytes → Type 0
IsNulFree = All (λ c. 0 < c)

pub c_string_id : (s : Bytes) → IsNulFree s → c_string s ≡ s
unfolding c_string
c_string_id [] h = refl
c_string_id (zero ∷ s) h = absurd (omega arith)
c_string_id (suc c ∷ s) h = ap (◌∷◌ (suc c)) (c_string_id s h.1)

pub c_string-IsNulFree : (s : Bytes) → IsNulFree (c_string s)
unfolding c_string
c_string-IsNulFree [] = tt
c_string-IsNulFree (zero ∷ s) = tt
c_string-IsNulFree (suc c ∷ s) = (omega arith, c_string-IsNulFree s)
