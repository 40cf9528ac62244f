-- ===== src/Methods/Tests.antt =====
-- A method of two parameters, called through the callback.
use modern_opc.Base.{◌≡◌, refl, Outcome, ok, List, [], ◌∷◌, some, pos, text}
use modern_opc.Types.Tests.{c_text, c_text-ReadsCString}
use modern_opc.Variant.{UaVariant, empty, int32}
use modern_opc.Variant.Access.{CppValue, cpp_int, cpp_string, int_type, string_type}
use modern_opc.Variant.Tests.{plain_variants, plain_variants-AreVariants}
use modern_opc.Server.Status.{good}
use modern_opc.Methods.{Signature, read_inputs, call, call_with_object, internal_method_callback}
use modern_opc.Methods.Laws.{Holds, internal_method_callback_lem}

abbrev pub signature : Signature
signature = record {
  inputs = int_type int32 ∷ string_type ∷ [];
  outputs = string_type ∷ int_type int32 ∷ [];
}

-- Gives the arguments back in the other order.
abbrev pub swap : List CppValue → Outcome (List CppValue)
swap (a ∷ b ∷ []) = ok (b ∷ a ∷ [])
swap xs = ok xs

abbrev pub arguments : List CppValue
arguments = cpp_int int32 (pos 3) ∷ cpp_string (text "three") ∷ []

abbrev pub swapped : List CppValue
swapped = cpp_string (text "three") ∷ cpp_int int32 (pos 3) ∷ []

abbrev pub outputs : List UaVariant
outputs = empty ∷ empty ∷ []

internal_method_callback_lem_example :
    (ins : List UaVariant) × (written : List UaVariant) × Holds plain_variants c_text arguments ins
    × (internal_method_callback
          (some (call_with_object plain_variants c_text signature (λ o. swap)))
          (some 5)
          ins
          outputs
        ≡ ok (good, written))
    × (internal_method_callback
          (some (λ o. call plain_variants c_text signature swap))
          (some 5)
          ins
          outputs
        ≡ ok (good, written))
    × (read_inputs signature.outputs 0 written ≡ ok swapped)
internal_method_callback_lem_example =
    internal_method_callback_lem plain_variants c_text signature (λ o. swap) arguments swapped
      outputs (some 5) plain_variants-AreVariants c_text-ReadsCString (tt, (tt, tt)) (tt, (tt, tt))
      refl refl refl refl
