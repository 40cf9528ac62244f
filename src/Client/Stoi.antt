-- ===== src/Client/Stoi.antt =====
-- std::stoi of the standard library: white space, a sign, and digits, in the range of an int.
use modern_opc.Base.{
  Concludes, true, false, refl, ltb→lt, ℕ, zero, suc, ◌≡◌, ◌<◌, ◌^◌, Bool, if◌then◌else◌, ltb, leb,
  ◌==◌, ◌&&◌, ◌||◌, Bytes, ℤ, pos, negsuc, IsInt32, Outcome, ok, throws, invalid_argument,
  out_of_range, [], ◌∷◌, scan, is_digit, decimal, decimal_int, decimal-digits, scan-decimal,
  append-nil, IsDigit, subst, arith,
}

abbrev is_space : ℕ → Bool
is_space c = c == 32 || (leb 9 c && leb c 13)

positive : ℕ → Outcome ℤ
positive n = if ltb n (2 ^ 31) then ok (pos n) else throws out_of_range

negative : ℕ → Outcome ℤ
negative zero = ok (pos 0)
negative (suc n) = if ltb n (2 ^ 31) then ok (negsuc n) else throws out_of_range

-- Digits, of which there must be one.
digits : (ℕ → Outcome ℤ) → Bytes → Outcome ℤ
digits sign [] = throws invalid_argument
digits sign (c ∷ s) = if is_digit c then sign (scan 0 (c ∷ s)) else throws invalid_argument

unfoldable pub stoi : Bytes → Outcome ℤ
unfolding digits positive negative
stoi [] = throws invalid_argument
stoi (c ∷ s) =
    let rest = stoi s in
    if is_space c
    then rest
    else if c == b'-'
    then digits negative s
    else if c == b'+'
    then digits positive s
    else digits positive (c ∷ s)

stoi_digit :
    (c : ℕ) (s : Bytes) (n : ℕ)
    → IsDigit c
    → scan 0 (c ∷ s) ≡ n
    → n < 2 ^ 31
    → stoi (c ∷ s) ≡ ok (pos n)
unfolding stoi digits positive
stoi_digit c s n d e h = ground arith

stoi_minus :
    (c : ℕ) (s : Bytes) (n : ℕ)
    → IsDigit c
    → scan 0 (c ∷ s) ≡ suc n
    → n < 2 ^ 31
    → stoi (b'-' ∷ c ∷ s) ≡ ok (negsuc n)
unfolding stoi digits negative
stoi_minus c s n d e h = ground arith

scan_whole : (n : ℕ) → scan 0 (decimal n) ≡ n
scan_whole n = subst (λ s. scan 0 s ≡ n) (append-nil (decimal n)) (scan-decimal n [] tt)

-- stoi reads back what std::to_string printed of an int.
pub stoi-decimal_int : (z : ℤ) → IsInt32 z → stoi (decimal_int z) ≡ ok z
unfolding decimal_int
stoi-decimal_int (pos n) h =
    let (c, t, eq, d) = decimal-digits n in
    rw eq (stoi_digit c t n d.0 (subst (λ s. scan 0 s ≡ n) eq (scan_whole n)) h)
stoi-decimal_int (negsuc n) h =
    let (c, t, eq, d) = decimal-digits (suc n) in
    rw eq (stoi_minus c t n d.0 (subst (λ s. scan 0 s ≡ suc n) eq (scan_whole (suc n))) h)

Concludes-if :
    (b : Bool) (x y : Outcome ℤ)
    → (b ≡ true → Concludes IsInt32 x)
    → (b ≡ false → Concludes IsInt32 y)
    → Concludes IsInt32 (if b then x else y)
Concludes-if true x y h k = h refl
Concludes-if false x y h k = k refl

positive-Concludes : (n : ℕ) → Concludes IsInt32 (positive n)
unfolding positive
positive-Concludes n =
    Concludes-if (ltb n (2 ^ 31)) (ok (pos n)) (throws out_of_range) (λ h. ltb→lt n (2 ^ 31) h)
      (λ h. tt)

negative-Concludes : (n : ℕ) → Concludes IsInt32 (negative n)
unfolding negative
negative-Concludes zero = omega arith
negative-Concludes (suc n) =
    Concludes-if (ltb n (2 ^ 31)) (ok (negsuc n)) (throws out_of_range) (λ h. ltb→lt n (2 ^ 31) h)
      (λ h. tt)

digits-Concludes :
    (sign : ℕ → Outcome ℤ) (s : Bytes)
    → ((n : ℕ) → Concludes IsInt32 (sign n))
    → Concludes IsInt32 (digits sign s)
unfolding digits
digits-Concludes sign [] h = tt
digits-Concludes sign (c ∷ s) h =
    Concludes-if (is_digit c) (sign (scan 0 (c ∷ s))) (throws invalid_argument)
      (λ e. h (scan 0 (c ∷ s))) (λ e. tt)

-- Whatever the text, stoi gives an int or throws.
pub stoi-Concludes : (s : Bytes) → Concludes IsInt32 (stoi s)
unfolding stoi
stoi-Concludes [] = tt
stoi-Concludes (c ∷ s) =
    Concludes-if (is_space c) _ _ (λ e. stoi-Concludes s)
      (λ e.
        Concludes-if (c == b'-') _ _ (λ f. digits-Concludes negative s negative-Concludes)
          (λ f.
            Concludes-if (c == b'+') _ _ (λ g. digits-Concludes positive s positive-Concludes)
              (λ g. digits-Concludes positive (c ∷ s) positive-Concludes)))
