-- ===== src/Methods/Laws.antt =====
-- Server::internalMethodCallback with a bound function, from the caller's values to its results.
use modern_opc.Base.{
  ℕ, suc, ◌≡◌, refl, ap, ◌∙◌, subst, Outcome, ok, List, [], ◌∷◌, ◌++◌, map, Option, some, set,
  length, All, arith, append_assoc,
}
use modern_opc.Types.UaText.{UaText, ReadsCString}
use modern_opc.Variant.{UaVariant, UaVariants, AreVariants}
use modern_opc.Variant.Access.{CppType, CppValue, type_of, get, to_ua_variant}
use modern_opc.Variant.Access.RoundTrip.{Survives, to_ua_variant-ReadsBack}
use modern_opc.Server.Status.{good}
use modern_opc.Methods.{
  Signature, element, read_inputs, write_outputs, call, call_with_object, internal_method_callback,
}

element-middle :
    {A : Type 0} (l : List A) (x : A) (r : List A) → element (l ++ (x ∷ r)) (length l) ≡ ok x
unfolding element
element-middle [] x r = refl
element-middle (y ∷ l) x r = element-middle l x r

set-middle :
    {A : Type 0} (l : List A) (x y : A) (r : List A)
    → set (l ++ (x ∷ r)) (length l) y ≡ l ++ (y ∷ r)
set-middle [] x y r = refl
set-middle (z ∷ l) x y r = ap (λ k. z ∷ k) (set-middle l x y r)

module _ (u : UaVariants) (t : UaText) where
  -- The variants that hold the values, one each.
  abbrev pub Holds : List CppValue → List UaVariant → Type 0
  Holds [] [] = Unit {0}
  Holds (x ∷ xs) (v ∷ vs) = (to_ua_variant u t x ≡ ok v) × (get (type_of x) v ≡ ok x) × Holds xs vs
  Holds _ _ = ⊥

  held :
      (xs : List CppValue)
      → AreVariants u
      → ReadsCString t
      → All Survives xs
      → (vs : List UaVariant) × Holds xs vs
  held [] a r h = ([], tt)
  held (x ∷ xs) a r (s, h) =
      let (v, e, _, g) = to_ua_variant-ReadsBack u t x a r s in
      let (vs, k) = held xs a r h in (v ∷ vs, (e, g, k))

  snoc :
      (l : List UaVariant) (v : UaVariant) (vs : List UaVariant)
      → (l ++ (v ∷ [])) ++ vs ≡ l ++ (v ∷ vs)
  snoc l v vs = append_assoc l (v ∷ []) vs

  length-snoc : (l : List UaVariant) (v : UaVariant) → length (l ++ (v ∷ [])) ≡ suc (length l)
  length-snoc [] v = refl
  length-snoc (x ∷ l) v = ap suc (length-snoc l v)

  read_step :
      (x : CppValue) (ts : List CppType) (i : ℕ) (v : UaVariant) (vs : List UaVariant)
      (xs : List CppValue)
      → element vs i ≡ ok v
      → get (type_of x) v ≡ ok x
      → read_inputs ts (suc i) vs ≡ ok xs
      → read_inputs (type_of x ∷ ts) i vs ≡ ok (x ∷ xs)
  unfolding read_inputs
  read_step x ts i v vs xs e g r = rw (e, g, r, read_inputs) refl

  read_inputs-Holds :
      (xs : List CppValue) (l vs : List UaVariant)
      → Holds xs vs
      → read_inputs (map type_of xs) (length l) (l ++ vs) ≡ ok xs
  read_inputs-Holds [] l vs h = unfold read_inputs in refl
  read_inputs-Holds (x ∷ xs) l [] h = absurd h
  read_inputs-Holds (x ∷ xs) l (v ∷ vs) (_, g, h) =
      read_step x (map type_of xs) (length l) v (l ++ (v ∷ vs)) xs (element-middle l v vs) g (
        subst (λ n. read_inputs (map type_of xs) n (l ++ (v ∷ vs)) ≡ ok xs) (length-snoc l v)
          (subst (λ k. read_inputs (map type_of xs) (length (l ++ (v ∷ []))) k ≡ ok xs)
            (snoc l v vs) (read_inputs-Holds xs (l ++ (v ∷ [])) vs h)))

  write_step :
      (x : CppValue) (xs : List CppValue) (i : ℕ) (old v : UaVariant) (vs : List UaVariant)
      → element vs i ≡ ok old
      → to_ua_variant u t x ≡ ok v
      → write_outputs u t (x ∷ xs) i vs ≡ write_outputs u t xs (suc i) (set vs i v)
  unfolding write_outputs
  write_step x xs i old v vs e w = rw (e, w, write_outputs) refl

  write_outputs-Holds :
      (xs : List CppValue) (l vs outs : List UaVariant)
      → Holds xs vs
      → length outs ≡ length xs
      → write_outputs u t xs (length l) (l ++ outs) ≡ ok (l ++ vs)
  write_outputs-Holds [] l [] [] h n = unfold write_outputs in refl
  write_outputs-Holds [] l [] (o ∷ outs) h n = absurd (omega arith)
  write_outputs-Holds [] l (v ∷ vs) outs h n = absurd h
  write_outputs-Holds (x ∷ xs) l [] outs h n = absurd h
  write_outputs-Holds (x ∷ xs) l (v ∷ vs) [] h n = absurd (omega arith)
  write_outputs-Holds (x ∷ xs) l (v ∷ vs) (o ∷ outs) (w, _, h) n =
      write_step x xs (length l) o v (l ++ (o ∷ outs)) (element-middle l o outs) w
      ∙ ap (write_outputs u t xs (suc (length l))) (set-middle l o v outs)
      ∙ subst (λ k. write_outputs u t xs k (l ++ (v ∷ outs)) ≡ ok (l ++ (v ∷ vs))) (length-snoc l v)
          (subst (λ k. write_outputs u t xs (length (l ++ (v ∷ []))) k ≡ ok (l ++ (v ∷ vs)))
            (snoc l v outs)
            (subst
              (λ k. write_outputs u t xs (length (l ++ (v ∷ []))) ((l ++ (v ∷ [])) ++ outs) ≡ ok k)
              (snoc l v vs) (write_outputs-Holds xs (l ++ (v ∷ [])) vs outs h (omega arith))))

  -- A method call from end to end. Arguments and results that survive the way through open62541 are
  -- passed unchanged: the callback hands to the bound function the values that the caller put into
  -- the inputs, with the context of the object if its first parameter is a pointer to that; it answers
  -- GOOD, and reading the outputs at the types of the results gives the function's results. The caller
  -- gives an input for each parameter, and open62541 an output for each result.
  pub internal_method_callback_lem :
      (g : Signature) (f : Option ℕ → List CppValue → Outcome (List CppValue))
      (args results : List CppValue) (outs : List UaVariant) (object : Option ℕ)
      → AreVariants u
      → ReadsCString t
      → All Survives args
      → All Survives results
      → map type_of args ≡ g.inputs
      → map type_of results ≡ g.outputs
      → length outs ≡ length results
      → f object args ≡ ok results
      → (ins : List UaVariant) × (written : List UaVariant) × Holds args ins
        × (internal_method_callback (some (call_with_object u t g f)) object ins outs
            ≡ ok (good, written))
        × (internal_method_callback (some (λ o. call u t g (f object))) object ins outs
            ≡ ok (good, written))
        × (read_inputs g.outputs 0 written ≡ ok results)
  unfolding internal_method_callback call call_with_object
  internal_method_callback_lem g f args results outs object a r sa sr ta tr n e =
      let (ins, hi) = held args a r sa in
      let (written, hw) = held results a r sr in
      let re : read_inputs g.inputs 0 ins ≡ ok args =
        subst (λ k. read_inputs k 0 ins ≡ ok args) ta (read_inputs-Holds args [] ins hi) in
      (
        ins,
        written,
        hi,
        rw (re, e, write_outputs-Holds results [] written outs hw n) refl,
        rw (re, e, write_outputs-Holds results [] written outs hw n) refl,
        subst (λ k. read_inputs k 0 written ≡ ok results) tr
            (read_inputs-Holds results [] written hw),
      )
