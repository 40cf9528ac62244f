-- ===== src/Base/Decimal.antt =====
-- Decimal text: std::to_string and operator<< of a number, and atoi.
use Prim.Native.Nat.{ℕ, zero, suc, ◌+◌, ◌-◌, ◌*◌, ◌/◌, ◌%◌, ◌≤◌, ◌<◌, ◌^◌}
use mathlib.Core.Bool.{Bool, false, ◌&&◌, ◌||◌}
use mathlib.Core.List.{[], ◌∷◌, ◌++◌, append_assoc}
use mathlib.Core.Logic.{dite, dif_pos, dif_neg}
use mathlib.Core.Path.{◌≡◌, refl, ◌∙◌, ap}
use mathlib.Core.WellFounded.{Acc, WellFounded}
use native.Mathlib.Bridge.{le_prop}
use native.Mathlib.Decide.{dec_lt}
use native.Mathlib.Omega.{arith}
use modern_opc.Base.Tests.{ltb, leb, ◌==◌, if◌then◌else◌}
use modern_opc.Base.Int.{ℤ, pos, negsuc, IsInt32}
use modern_opc.Base.Outcomes.{Outcome, ok, faults, overflow}
use modern_opc.Base.Text.{Bytes}
use modern_opc.Base.Lists.{All, All-append}

Acc-below : (k n : ℕ) → n < k → Acc ◌<◌ n
Acc-below zero n h = absurd (omega arith)
Acc-below (suc k) n h = Acc.intro n (λ m lt. Acc-below k m (omega arith))

ℕ_wf : WellFounded ◌<◌
unfolding Acc-below
ℕ_wf = record { apply = λ n. Acc-below (suc n) n (omega arith) }

tenth-lt : (n : ℕ) → 9 < n → n / 10 < n
tenth-lt n h = omega arith

decimal_acc : (n : ℕ) → Acc ◌<◌ n → Bytes
decimal_acc n (Acc.intro _ smaller) =
    dite (dec_lt 9 n)
      (λ h. decimal_acc (n / 10) (smaller (n / 10) (tenth-lt n h)) ++ ((b'0' + n % 10) ∷ []))
      (λ _. (b'0' + n) ∷ [])

-- std::to_string of an unsigned number
unfoldable pub decimal : ℕ → Bytes
unfolding decimal_acc ℕ_wf dec_lt tenth-lt
decimal n = decimal_acc n (ℕ_wf.apply n)

-- std::to_string of an int
unfoldable pub decimal_int : ℤ → Bytes
decimal_int (pos n) = decimal n
decimal_int (negsuc n) = b'-' ∷ decimal (suc n)

abbrev pub is_digit : ℕ → Bool
is_digit c = leb b'0' c && leb c b'9'

-- The digits at the head of a text, on top of what was read before.
unfoldable pub scan : ℕ → Bytes → ℕ
scan acc [] = acc
scan acc (c ∷ s) = let rest = scan (acc * 10 + (c - b'0')) s in if is_digit c then rest else acc

-- A text that does not go on with a digit.
abbrev pub Ends : Bytes → Type 0
Ends [] = Unit {0}
Ends (c ∷ s) = is_digit c ≡ false

scan-Ends : (acc : ℕ) (s : Bytes) → Ends s → scan acc s ≡ acc
unfolding scan
scan-Ends acc [] h = refl
scan-Ends acc (c ∷ s) h = ground arith

scan_digit : (acc d : ℕ) (s : Bytes) → d < 10 → scan acc ((b'0' + d) ∷ s) ≡ scan (acc * 10 + d) s
unfolding scan
scan_digit acc d s h = ground arith

scan-decimal_acc : (n : ℕ) (w : Acc ◌<◌ n) (s : Bytes) → scan 0 (decimal_acc n w ++ s) ≡ scan n s
unfolding decimal_acc
scan-decimal_acc n (Acc.intro _ smaller) s = elim (dec_lt 9 n) [
  | yes h ↦
      rw (dif_pos _ le_prop h, append_assoc)
        (scan-decimal_acc (n / 10) (smaller (n / 10) (tenth-lt n h)) ((b'0' + n % 10) ∷ s)
          ∙ scan_digit (n / 10) (n % 10) s (omega arith)
          ∙ ap (λ k. scan k s) (omega arith))
  | no h ↦ rw (dif_neg _ h) (scan_digit 0 n s (omega arith) ∙ ap (λ k. scan k s) (omega arith))
]

-- A printed number that no further digit follows is read back.
pub scan-decimal : (n : ℕ) (s : Bytes) → Ends s → scan 0 (decimal n ++ s) ≡ n
unfolding decimal
scan-decimal n s h = scan-decimal_acc n (ℕ_wf.apply n) s ∙ scan-Ends n s h

abbrev pub IsDigit : ℕ → Type 0
IsDigit c = (b'0' ≤ c) × (c ≤ b'9')

-- A decimal text is a digit and further digits.
decimal_acc-digits :
    (n : ℕ) (w : Acc ◌<◌ n)
    → (c : ℕ) × (s : Bytes) × (decimal_acc n w ≡ c ∷ s) × All IsDigit (c ∷ s)
unfolding decimal_acc
decimal_acc-digits n (Acc.intro _ smaller) = elim (dec_lt 9 n) [
  | yes h ↦ rw (dif_pos _ le_prop h) (
      let (c, s, e, d) = decimal_acc-digits (n / 10) (smaller (n / 10) (tenth-lt n h)) in
      (c, s ++ ((b'0' + n % 10) ∷ []), rw e, (d.0, All-append IsDigit s _ d.1 (omega arith))))
  | no h ↦ rw (dif_neg _ h) (b'0' + n, [], refl, omega arith)
]

pub decimal-digits : (n : ℕ) → (c : ℕ) × (s : Bytes) × (decimal n ≡ c ∷ s) × All IsDigit (c ∷ s)
unfolding decimal
decimal-digits n = decimal_acc-digits n (ℕ_wf.apply n)

abbrev is_space : ℕ → Bool
is_space c = c == 32 || (leb 9 c && leb c 13)

minus : ℕ → ℤ
minus zero = pos 0
minus (suc n) = negsuc n

-- atoi after the white space: a sign, and digits. Outside `int` the result is undefined.
signed_scan : Bytes → ℤ
unfolding minus
signed_scan [] = pos 0
signed_scan (c ∷ s) =
    if c == b'-'
    then minus (scan 0 s)
    else if c == b'+'
    then pos (scan 0 s)
    else pos (scan 0 (c ∷ s))

in_range : ℤ → Outcome ℤ
in_range (pos n) = if ltb n (2 ^ 31) then ok (pos n) else faults overflow
in_range (negsuc n) = if ltb n (2 ^ 31) then ok (negsuc n) else faults overflow

unfoldable pub atoi : Bytes → Outcome ℤ
unfolding signed_scan in_range
atoi [] = in_range (pos 0)
atoi (c ∷ s) = let rest = atoi s in if is_space c then rest else in_range (signed_scan (c ∷ s))

atoi_digit :
    (c : ℕ) (s : Bytes) (n : ℕ)
    → IsDigit c
    → scan 0 (c ∷ s) ≡ n
    → n < 2 ^ 31
    → atoi (c ∷ s) ≡ ok (pos n)
unfolding atoi
atoi_digit c s n d e h = ground arith

-- atoi reads back what std::to_string printed of an int, up to a byte that is no digit.
pub atoi-decimal_int : (z : ℤ) (s : Bytes) → IsInt32 z → Ends s → atoi (decimal_int z ++ s) ≡ ok z
unfolding decimal_int
atoi-decimal_int (pos n) s h e =
    let (c, t, eq, d) = decimal-digits n in
    rw eq (atoi_digit c (t ++ s) n d.0 (rw eq at (scan-decimal n s e)) h)
atoi-decimal_int (negsuc n) s h e = unfold atoi in ground (arith, scan-decimal (suc n) s e)
