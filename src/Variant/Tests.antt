-- ===== src/Variant/Tests.antt =====
-- Variants at concrete inputs, following tests/variant.cpp.
use modern_opc.Variant.Access.Typed.{get-is_a, GetsTyped}
use modern_opc.Base.{
  ℕ, ◌≡◌, refl, true, false, Bool, text, [], ◌∷◌, pos, ok, faults, bad_access, Decides, Option,
  none, some, arith, ap, not, bytes_eq, bytes_eq_iff, ◌↔◌,
}
use modern_opc.Types.Tests.{c_text, c_text-ReadsCString, test_id, test_id-IsNodeId}
use modern_opc.Variant.{
  integer, string, int32, uint32, Value, int_value, string_value, scalar, array, UaVariants,
  AreVariants, UaExpandedNodeId, has_type, holds_scalar,
}
use modern_opc.Variant.Access.{
  is_a, get_data_type, ua_type_eq, int_type_eq, int_type, cpp_node_id, to_ua_variant,
  get_int_vector, of_uint, vector_to_ua_variant,
}
use modern_opc.Variant.Access.RoundTrip.{ReadsBack, get-to_ua_variant}
use modern_opc.Types.Guid.{Guid}
use modern_opc.Types.NodeId.{UaNodeId}
use modern_opc.Types.UaText.{UaQualifiedName}
use modern_opc.Variant.Compare.{UaEqual, DecideEqual, UaKinds, variant_eq}
use modern_opc.Variant.Compare.Arrays.{variant_eq_array}
use modern_opc.Variant.Compare.Scalars.{compared_kind, KindsInOrder, variant_eq-Decides}
use native.Mathlib.Decide.{ℕ_discrete}

-- The functions of open62541 on a UA_Variant, as it documents them.
abbrev pub plain_variants : UaVariants
plain_variants = record {
  is_empty = λ v. not (has_type v);
  is_scalar = holds_scalar;
  set_scalar_copy = scalar;
  set_array_copy = array;
}

pub plain_variants-AreVariants : AreVariants plain_variants
plain_variants-AreVariants = record {
  is_empty_lem = λ v. refl;
  is_scalar_lem = λ v. refl;
  set_scalar_copy_lem = λ t v. refl;
  set_array_copy_lem = λ t vs. refl;
}

get-to_ua_variant_example :
    ReadsBack (cpp_node_id test_id) (to_ua_variant plain_variants c_text (cpp_node_id test_id))
    × (get_int_vector of_uint (vector_to_ua_variant plain_variants uint32 (pos 3 ∷ pos 4 ∷ []))
        ≡ ok (pos 3 ∷ pos 4 ∷ []))
get-to_ua_variant_example =
    get-to_ua_variant plain_variants c_text (cpp_node_id test_id) of_uint (pos 3 ∷ pos 4 ∷ [])
      plain_variants-AreVariants c_text-ReadsCString (test_id-IsNodeId, omega arith)

-- Equality by a decision.
pub dec_equal : {A : Type 0} → Discrete A → A → A → Bool
dec_equal d a b = elim (d a b) [ yes p ↦ true | no n ↦ false ]

pub dec_equal_iff : {A : Type 0} (d : Discrete A) (a b : A) → (dec_equal d a b ≡ true) ↔ (a ≡ b)
unfolding dec_equal
dec_equal_iff d a b = go (d a b)
  where
    go : (x : Dec (a ≡ b)) → ((elim x [ yes p ↦ true | no n ↦ false ]) ≡ true) ↔ (a ≡ b)
    go (yes p) = (λ h. p, λ h. refl)
    go (no n) = (λ h. cc, λ h. absurd (n h))

Guid-discrete : Discrete Guid
Guid-discrete = hlevel ℕ_discrete

pub UaNodeId-discrete : Discrete UaNodeId
UaNodeId-discrete = hlevel ℕ_discrete

UaExpandedNodeId-discrete : Discrete UaExpandedNodeId
UaExpandedNodeId-discrete = hlevel ℕ_discrete

UaQualifiedName-discrete : Discrete UaQualifiedName
UaQualifiedName-discrete = hlevel ℕ_discrete

abbrev by_value : UaEqual
by_value = record {
  string_equal = bytes_eq;
  guid_equal = dec_equal Guid-discrete;
  node_id_equal = dec_equal UaNodeId-discrete;
  expanded_node_id_equal = dec_equal UaExpandedNodeId-discrete;
  qualified_name_equal = dec_equal UaQualifiedName-discrete;
}

by_value-DecideEqual : DecideEqual by_value
by_value-DecideEqual = record {
  string_equal_iff = bytes_eq_iff;
  guid_equal_iff = dec_equal_iff Guid-discrete;
  node_id_equal_iff = dec_equal_iff UaNodeId-discrete;
  expanded_node_id_equal_iff = dec_equal_iff UaExpandedNodeId-discrete;
  qualified_name_equal_iff = dec_equal_iff UaQualifiedName-discrete;
}

abbrev kind_or : Option ℕ → ℕ
kind_or none = 30
kind_or (some n) = n

abbrev kinds : UaKinds
kinds = record { kind_of = λ t. kind_or (compared_kind t) }

kinds-KindsInOrder : KindsInOrder kinds
kinds-KindsInOrder = record { kind_of_lem = λ t n h. ap kind_or h }

variant_eq-Decides_example :
    Decides
      (variant_eq plain_variants by_value kinds
        (scalar string (string_value (text "myString")))
        (scalar string (string_value (text "myString2"))))
      (string_value (text "myString"))
      (string_value (text "myString2"))
variant_eq-Decides_example =
    variant_eq-Decides plain_variants by_value kinds string (string_value (text "myString"))
      (string_value (text "myString2")) plain_variants-AreVariants by_value-DecideEqual
      kinds-KindsInOrder tt tt

abbrev int_of : ℕ → Value
int_of n = int_value int32 (pos n)

-- {1, 2} == {1, 3}
variant_eq_array_example :
    variant_eq plain_variants by_value kinds
      (array (integer int32) (int_of 1 ∷ int_of 2 ∷ []))
      (array (integer int32) (int_of 1 ∷ int_of 3 ∷ []))
    ≡ variant_eq plain_variants by_value kinds
        (scalar (integer int32) (int_of 1))
        (scalar (integer int32) (int_of 1))
variant_eq_array_example =
    variant_eq_array plain_variants by_value kinds plain_variants-AreVariants (integer int32)
      (int_of 1) (int_of 1) (int_of 2 ∷ []) (int_of 3 ∷ []) refl

arrays_of_one_head :
    variant_eq plain_variants by_value kinds
      (array (integer int32) (int_of 1 ∷ int_of 2 ∷ []))
      (array (integer int32) (int_of 1 ∷ int_of 3 ∷ []))
    ≡ ok true
unfolding variant_eq
arrays_of_one_head = refl

empty_arrays :
    variant_eq plain_variants by_value kinds (array (integer int32) []) (array (integer int32) [])
    ≡ faults bad_access
unfolding variant_eq
empty_arrays = refl

is_int : is_a (int_type int32) (array (integer int32) (int_of 4 ∷ int_of 5 ∷ [])) ≡ true
unfolding is_a get_data_type ua_type_eq int_type_eq
is_int = refl

-- is_a<int32_t>() of two numbers
get-is_a_example : GetsTyped (int_type int32) (array (integer int32) (int_of 4 ∷ int_of 5 ∷ []))
get-is_a_example =
    get-is_a (int_type int32) (array (integer int32) (int_of 4 ∷ int_of 5 ∷ [])) (refl, (refl, tt))
      is_int
