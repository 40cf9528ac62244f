-- ===== src/Methods.antt =====
-- Methods: the arguments that MethodTraits derives from a signature, the call through ICallable
-- (modernopc/include/modernopc/methods) and Server::internalMethodCallback.
pub mod Laws
pub mod Tests
use modern_opc.Base.{
  ℕ, zero, suc, Bool, true, false, if◌then◌else◌, Outcome, ok, faults, out_of_bounds, ◌>>=◌, List,
  [], ◌∷◌, map, Option, none, some, ℤ, pos, negsuc, get_elem?, set, length, ltb,
}
use modern_opc.Types.NodeId.{UaNodeId}
use modern_opc.Types.UaText.{UaText}
use modern_opc.Variant.{UaType, UaVariant, UaVariants}
use modern_opc.Variant.Access.{
  CppType, bool_type, float_type, double_type, string_type, node_id_type, qualified_name_type,
  localized_text_type, int_type, int_vector_type, string_vector_type, CppValue, get_data_type, get,
  to_ua_variant,
}
use modern_opc.Server.Status.{UaStatusCode, good, bad_method_invalid}
use modern_opc.Server.Ua.{UaArgument}

-- The typeId of a UA_DataType, which open62541 has in its table.
abbrev pub TypeIds : Type 0
TypeIds = UaType → UaNodeId

-- is_vector<T>
abbrev pub is_vector : CppType → Bool
is_vector int_vector_type = true
is_vector string_vector_type = true
is_vector _ = false

-- UA_VALUERANK_SCALAR and UA_VALUERANK_ONE_DIMENSION
abbrev pub value_rank_scalar : ℤ
value_rank_scalar = negsuc 0

abbrev pub value_rank_one_dimension : ℤ
value_rank_one_dimension = pos 1

-- getInputArgument and getOutputArgument
unfoldable pub get_input_argument : TypeIds → CppType → UaArgument
unfolding get_data_type
get_input_argument ids t = record {
  data_type = ids (get_data_type t);
  value_rank = value_rank_scalar;
}

unfoldable pub get_output_argument : TypeIds → CppType → UaArgument
unfolding get_data_type
get_output_argument ids t = record {
  data_type = ids (get_data_type t);
  value_rank = if is_vector t then value_rank_one_dimension else value_rank_scalar;
}

-- A function that is bound to a method: its types, and what it does. Its results are none for
-- `void`, the components of a tuple, or a single value.
pub record Signature : Type 0 where
  pub inputs : List CppType
  pub outputs : List CppType

unfoldable pub get_input_arguments : TypeIds → Signature → List UaArgument
unfolding get_input_argument
get_input_arguments ids g = map (get_input_argument ids) g.inputs

unfoldable pub get_output_arguments : TypeIds → Signature → List UaArgument
unfolding get_output_argument
get_output_arguments ids g = map (get_output_argument ids) g.outputs

-- inputArguments[i] of a vector, which does not check the index
unfoldable pub element : {A : Type 0} → List A → ℕ → Outcome A
element xs i = elim (get_elem? xs i) [ none ↦ faults out_of_bounds | some x ↦ ok x ]

-- for_each over the tuple of the inputs: the i-th is read from inputArguments[i].
unfoldable pub read_inputs : List CppType → ℕ → List UaVariant → Outcome (List CppValue)
unfolding element get
read_inputs [] i vs = ok []
read_inputs (t ∷ ts) i vs = do
  v ← element vs i
  x ← get t v
  xs ← read_inputs ts (suc i) vs
  ok (x ∷ xs)

module _ (u : UaVariants) (t : UaText) where
  -- for_each over the tuple of the results: outputArguments[i](x).
  unfoldable pub write_outputs : List CppValue → ℕ → List UaVariant → Outcome (List UaVariant)
  unfolding element to_ua_variant
  write_outputs [] i vs = ok vs
  write_outputs (x ∷ xs) i vs = do
    old ← element vs i
    v ← to_ua_variant u t x
    write_outputs xs (suc i) (set vs i v)

  -- Call<std::function<R(INARGS...)>>::call, `f` being std::apply of the bound function: whether
  -- the call succeeded, and the outputs afterwards
  unfoldable pub call :
      Signature
      → (List CppValue → Outcome (List CppValue))
      → List UaVariant
      → List UaVariant
      → Outcome (Bool × List UaVariant)
  unfolding read_inputs write_outputs
  call g f ins outs = do
    args ← read_inputs g.inputs 0 ins
    results ← f args
    written ← write_outputs results 0 outs
    ok (true, written)

  -- Call<std::function<R(ClassType *, INARGS...)>>::call, whose function gets the object's context
  -- first
  unfoldable pub call_with_object :
      Signature
      → (Option ℕ → List CppValue → Outcome (List CppValue))
      → Option ℕ
      → List UaVariant
      → List UaVariant
      → Outcome (Bool × List UaVariant)
  unfolding read_inputs write_outputs
  call_with_object g f obj ins outs = do
    args ← read_inputs g.inputs 0 ins
    results ← f obj args
    written ← write_outputs results 0 outs
    ok (true, written)

-- Call<FunctionCall>::call, whose function gets the Variants themselves
unfoldable pub call_function :
    (List UaVariant → List UaVariant → Outcome (Bool × List UaVariant))
    → Option ℕ
    → List UaVariant
    → List UaVariant
    → Outcome (Bool × List UaVariant)
call_function f obj ins outs = f ins outs

-- ICallable::call on the object's context
abbrev pub Callable : Type 0
Callable = Option ℕ → List UaVariant → List UaVariant → Outcome (Bool × List UaVariant)

-- What bindCallable and addMethod take, by the specialisations of MethodTraits: a pointer to a
-- function, a pointer to a member function, a std::function, and the std::function on Variants.
pub data Bindable : Type 0 where
  function_pointer std_function : Signature → (List CppValue → Outcome (List CppValue)) → Bindable
  member_function : Signature → (Option ℕ → List CppValue → Outcome (List CppValue)) → Bindable
  variants_function : (List UaVariant → List UaVariant → Outcome (Bool × List UaVariant)) → Bindable

-- Call<typename MethodTraits<M>::type>
unfoldable pub make_call : UaVariants → UaText → Bindable → Callable
unfolding call call_with_object call_function
make_call u t (function_pointer g f) object ins outs = call u t g f ins outs
make_call u t (std_function g f) object ins outs = call u t g f ins outs
make_call u t (member_function g f) object ins outs = call_with_object u t g f object ins outs
make_call u t (variants_function f) object ins outs = call_function f object ins outs

-- Server::internalMethodCallback: the status, and the outputs afterwards. The Variants that it
-- makes borrow the UA_Variants of open62541.
unfoldable pub internal_method_callback :
    Option Callable
    → Option ℕ
    → List UaVariant
    → List UaVariant
    → Outcome (UaStatusCode × List UaVariant)
internal_method_callback none object ins outs = ok (bad_method_invalid, outs)
internal_method_callback (some s) object ins outs = do
  (done, written) ← s object ins outs
  ok (if done then good else bad_method_invalid, written)

-- MethodNode::invoke, which answers false when no function is bound
unfoldable pub invoke :
    Option Callable → Option ℕ → List UaVariant → List UaVariant → Outcome (Bool × List UaVariant)
invoke none object ins outs = ok (false, outs)
invoke (some s) object ins outs = s object ins outs
