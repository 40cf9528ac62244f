-- ===== src/Base/Outcomes.antt =====
-- What a C++ call ends in: a value, an exception, or a fault (an assertion that fails, or an
-- access whose behaviour the language leaves undefined).
use mathlib.Core.Path.{◌≡◌, refl, ap}
use mathlib.Core.Bool.{Bool, true, false}
use mathlib.Core.Logic.{◌≢◌, ◌↔◌, ◌⊎◌, inl, inr}
use Prim.Native.Nat.{ℕ}
use mathlib.Core.List.{List}

pub data Exception : Type 0 where
  bad_variant_access out_of_range invalid_argument : Exception
  opc_exception : List ℕ → Exception

pub data Fault : Type 0 where
  assertion_failed null_dereference out_of_bounds bad_access overflow : Fault

pub data Outcome {ℓ} (A : Type ℓ) : Type ℓ where
  ok : A → Outcome A
  throws : Exception → Outcome A
  faults : Fault → Outcome A

-- The next call is made on the value, and an exception or a fault ends the chain.
infixl 5 ◌>>=◌ ◌>>◌
abbrev pub ◌>>=◌ {ℓ κ} :
    {Before : Type ℓ} {After : Type κ} → Outcome Before → (Before → Outcome After) → Outcome After
faults why >>= next = faults why
throws exception >>= next = throws exception
ok value >>= next = next value

abbrev pub ◌>>◌ {ℓ} : {After : Type ℓ} → Outcome (Unit {0}) → Outcome After → Outcome After
call >> next = call >>= (λ done. next)

-- A chain that returns has a first step that returns.
pub >>=-eq-ok {ℓ κ} :
    {Before : Type ℓ} {After : Type κ} (call : Outcome Before) (next : Before → Outcome After)
    {result : After}
    → (call >>= next) ≡ ok result
    → (value : Before) × (call ≡ ok value) × (next value ≡ ok result)
>>=-eq-ok (faults why) next returned = cc
>>=-eq-ok (throws exception) next returned = cc
>>=-eq-ok (ok value) next returned = (value, refl, returned)

-- A comparison that ends in a value, and in the right one.
abbrev pub Decides {ℓ} : {A : Type ℓ} → Outcome Bool → A → A → Type ℓ
Decides r a b = ((r ≡ ok true) × (a ≡ b)) ⊎ ((r ≡ ok false) × (a ≢ b))

pub Decides-of_test {ℓ κ} :
    {A : Type ℓ} {B : Type κ} (t : Bool) (f : A → B) (a b : A)
    → (t ≡ true) ↔ (a ≡ b)
    → (f a ≡ f b → a ≡ b)
    → Decides (ok t) (f a) (f b)
Decides-of_test true f a b e inj = inl (refl, ap f (e.0 refl))
Decides-of_test false f a b e inj = inr (refl, λ h. cc (e.1 (inj h)))

-- The call returns, and its value satisfies `P`.
abbrev pub Returns {ℓ} : {A : Type ℓ} → (A → Type 0) → Outcome A → Type 0
Returns P (ok a) = P a
Returns P _ = ⊥

pub Returns-ok {ℓ} :
    {A : Type ℓ} (P : A → Type 0) (r : Outcome A) → Returns P r → (a : A) × (r ≡ ok a) × P a
Returns-ok P (ok a) h = (a, refl, h)
Returns-ok P (throws e) h = absurd h
Returns-ok P (faults e) h = absurd h

pub Returns-map {ℓ} :
    {A : Type ℓ} (P Q : A → Type 0) (r : Outcome A)
    → ((a : A) → P a → Q a)
    → Returns P r
    → Returns Q r
Returns-map P Q (ok a) f h = f a h
Returns-map P Q (throws e) f h = h
Returns-map P Q (faults e) f h = h

-- The call ends without a fault: with a value that satisfies `P`, or with an exception.
abbrev pub Concludes {ℓ} : {A : Type ℓ} → (A → Type 0) → Outcome A → Type 0
Concludes P (ok a) = P a
Concludes P (throws e) = Unit
Concludes P (faults f) = ⊥

pub Concludes-bind {ℓ κ} :
    {A : Type ℓ} {B : Type κ} (P : A → Type 0) (Q : B → Type 0) (r : Outcome A) (f : A → Outcome B)
    → Concludes P r
    → ((a : A) → P a → Concludes Q (f a))
    → Concludes Q (r >>= f)
Concludes-bind P Q (ok a) f h k = k a h
Concludes-bind P Q (throws e) f h k = tt
Concludes-bind P Q (faults e) f h k = absurd h
