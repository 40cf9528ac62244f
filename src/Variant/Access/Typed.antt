-- ===== src/Variant/Access/Typed.antt =====
-- is_a<T>() before get<T>() (modernopc/include/modernopc/Variant.h, modernopc/src/Variant_get.cpp).
use modern_opc.Base.{
  ◌⊎◌, inl, inr, ◌>>=◌, faults, bad_access, ◌≡◌, refl, sym, ◌∙◌, Bool, true, false, Bytes, List, [],
  ◌∷◌, ℤ, Outcome, ok, All, subst,
}
use modern_opc.Types.Names.{from_ua_string}
use modern_opc.Variant.{
  first_value, IntType, int8, uint8, int16, uint16, int32, uint32, int64, uint64, UaType, boolean,
  float, double, string, node_id, qualified_name, localized_text, integer, Value, bool_value,
  int_value, float_value, double_value, string_value, node_id_value, qualified_name_value,
  localized_text_value, UaVariant, empty, scalar, array,
}
use modern_opc.Variant.Access.{
  cpp_string, cpp_string_vector, cpp_int_vector, get, is_a, CppType, bool_type, float_type,
  double_type, string_type, node_id_type, qualified_name_type, localized_text_type, int_type,
  int_vector_type, string_vector_type, get_int_vector, CppValue, cpp_bool, cpp_int, type_of,
  get_data_type, int_type_eq, read_int, read_string, read_localized_text, read_scalar, read_all,
  ua_type_eq,
}
use modern_opc.Variant.Access.RoundTrip.{int_type_eq_refl}

-- A value in the memory of a UA_Variant is one of its type, as open62541 sees to; of a type that no
-- T of the class stands for, nothing is said.
abbrev pub HasValue : UaType → Value → Type 0
HasValue boolean (bool_value b) = Unit {0}
HasValue boolean _ = ⊥
HasValue float (float_value x) = Unit {0}
HasValue float _ = ⊥
HasValue double (double_value x) = Unit {0}
HasValue double _ = ⊥
HasValue string (string_value s) = Unit {0}
HasValue string _ = ⊥
HasValue node_id (node_id_value id) = Unit {0}
HasValue node_id _ = ⊥
HasValue qualified_name (qualified_name_value qn) = Unit {0}
HasValue qualified_name _ = ⊥
HasValue localized_text (localized_text_value lt) = Unit {0}
HasValue localized_text _ = ⊥
HasValue (integer k) (int_value j z) = j ≡ k
HasValue (integer k) _ = ⊥
HasValue _ _ = Unit {0}

abbrev pub IsTyped : UaVariant → Type 0
IsTyped empty = Unit {0}
IsTyped (scalar t v) = HasValue t v
IsTyped (array t vs) = All (HasValue t) vs

int_type_eq_sound : (j k : IntType) → int_type_eq j k ≡ true → j ≡ k
unfolding int_type_eq
int_type_eq_sound int8 int8 h = refl
int_type_eq_sound uint8 uint8 h = refl
int_type_eq_sound int16 int16 h = refl
int_type_eq_sound uint16 uint16 h = refl
int_type_eq_sound int32 int32 h = refl
int_type_eq_sound uint32 uint32 h = refl
int_type_eq_sound int64 int64 h = refl
int_type_eq_sound uint64 uint64 h = refl
int_type_eq_sound _ _ h = cc h

-- A value of the integer type k, in a variant whose type is k, is read.
read_int-HasValue :
    (t : UaType) (k : IntType) (v : Value)
    → ua_type_eq t (integer k) ≡ true
    → HasValue t v
    → (z : ℤ) × (read_int k v ≡ ok z)
unfolding ua_type_eq read_int
read_int-HasValue (integer i) k (int_value j z) e h =
    let same : int_type_eq k j ≡ true =
      (subst (λ x. int_type_eq k x ≡ true) (sym (int_type_eq_sound i k e) ∙ sym h)
        (int_type_eq_refl k)) in
    (z, rw (same, read_int) refl)
read_int-HasValue (integer i) k _ e h = absurd h
read_int-HasValue _ k v e h = cc e

read_string-HasValue :
    (t : UaType) (v : Value)
    → ua_type_eq t string ≡ true
    → HasValue t v
    → (s : Bytes) × (read_string v ≡ ok s)
unfolding ua_type_eq read_string
read_string-HasValue string (string_value s) e h = (from_ua_string s, refl)
read_string-HasValue string _ e h = absurd h
read_string-HasValue _ v e h = cc e

read_all-HasValue :
    {A : Type 0} (f : Value → Outcome A) (t : UaType) (vs : List Value)
    → ((v : Value) → HasValue t v → (x : A) × (f v ≡ ok x))
    → All (HasValue t) vs
    → (xs : List A) × (read_all f vs ≡ ok xs)
unfolding read_all
read_all-HasValue f t [] h a = ([], refl)
read_all-HasValue f t (v ∷ vs) h a =
    let (x, e) = h v a.0 in
    let (xs, g) = read_all-HasValue f t vs h a.1 in (x ∷ xs, rw (e, g, read_all) refl)

abbrev pub is_vector_type : CppType → Bool
is_vector_type int_vector_type = true
is_vector_type string_vector_type = true
is_vector_type _ = false

-- get<T>() for a type that is no vector, on an element whose type is that of T.
read_scalar-HasValue :
    (k : CppType) (t : UaType) (v : Value)
    → is_vector_type k ≡ false
    → ua_type_eq t (get_data_type k) ≡ true
    → HasValue t v
    → (x : CppValue) × (read_scalar k v ≡ ok x) × (type_of x ≡ k)
unfolding ua_type_eq get_data_type read_scalar read_localized_text
read_scalar-HasValue bool_type boolean (bool_value b) n e h = (cpp_bool b, refl, refl)
read_scalar-HasValue bool_type boolean _ n e h = absurd h
read_scalar-HasValue float_type float (float_value x) n e h = (_, refl, refl)
read_scalar-HasValue float_type float _ n e h = absurd h
read_scalar-HasValue double_type double (double_value x) n e h = (_, refl, refl)
read_scalar-HasValue double_type double _ n e h = absurd h
read_scalar-HasValue string_type t v n e h =
    let (s, g) = read_string-HasValue t v e h in (cpp_string s, rw (g, read_scalar) refl, refl)
read_scalar-HasValue node_id_type node_id (node_id_value id) n e h = (_, refl, refl)
read_scalar-HasValue node_id_type node_id _ n e h = absurd h
read_scalar-HasValue qualified_name_type qualified_name (qualified_name_value qn) n e h =
    (_, refl, refl)
read_scalar-HasValue qualified_name_type qualified_name _ n e h = absurd h
read_scalar-HasValue localized_text_type localized_text (localized_text_value lt) n e h =
    (_, refl, refl)
read_scalar-HasValue localized_text_type localized_text _ n e h = absurd h
read_scalar-HasValue (int_type k) t v n e h =
    let (z, g) = read_int-HasValue t k v e h in (cpp_int k z, rw (g, read_scalar) refl, refl)
read_scalar-HasValue int_vector_type t v n e h = cc n
read_scalar-HasValue string_vector_type t v n e h = cc n
read_scalar-HasValue _ _ v n e h = cc e

get_no_vector :
    (k : CppType) (v : UaVariant)
    → is_vector_type k ≡ false
    → get k v ≡ (first_value v >>= λ x. read_scalar k x)
unfolding get
get_no_vector int_vector_type v n = cc n
get_no_vector string_vector_type v n = cc n
get_no_vector _ v n = refl

-- What a call of get<T>() ends in: a value of type T; or, for a T that is no vector, in a read of the
-- sentinel of an empty array.
abbrev pub GetsTyped : CppType → UaVariant → Type 0
GetsTyped k v =
    ((x : CppValue) × (get k v ≡ ok x) × (type_of x ≡ k))
    ⊎ ((is_vector_type k ≡ false)
        × ((t : UaType) × (v ≡ array t []))
        × (get k v ≡ faults bad_access))

no_vector-GetsTyped :
    (k : CppType) (v : UaVariant)
    → is_vector_type k ≡ false
    → IsTyped v
    → is_a k v ≡ true
    → GetsTyped k v
unfolding is_a first_value
no_vector-GetsTyped k empty n h e = cc e
no_vector-GetsTyped k (scalar t x) n h e =
    let (y, f, g) = read_scalar-HasValue k t x n e h in
    inl (y, get_no_vector k (scalar t x) n ∙ f, g)
no_vector-GetsTyped k (array t []) n h e = inr (n, (t, refl), get_no_vector k (array t []) n)
no_vector-GetsTyped k (array t (x ∷ xs)) n h e =
    let (y, f, g) = read_scalar-HasValue k t x n e h.0 in
    inl (y, get_no_vector k (array t (x ∷ xs)) n ∙ f, g)

-- is_a<T>() makes get<T>() safe: of a UA_Variant whose values are of its type, and for which is_a<T>()
-- answers true, get<T>() returns a value, of type T, unless T is no vector and the UA_Variant an empty
-- array. Then get<T>() reads the array's sentinel.
pub get-is_a : (k : CppType) (v : UaVariant) → IsTyped v → is_a k v ≡ true → GetsTyped k v
unfolding is_a get get_int_vector read_all get_data_type
get-is_a int_vector_type empty h e = cc e
get-is_a int_vector_type (scalar t x) h e = inl (cpp_int_vector [], refl, refl)
get-is_a int_vector_type (array t xs) h e =
    let (zs, f) = read_all-HasValue (read_int int32) t xs (λ x. read_int-HasValue t int32 x e) h in
    inl (cpp_int_vector zs, rw (f, get, get_int_vector) refl, refl)
get-is_a string_vector_type empty h e = cc e
get-is_a string_vector_type (scalar t x) h e = inl (cpp_string_vector [], refl, refl)
get-is_a string_vector_type (array t xs) h e =
    let (ss, f) = read_all-HasValue read_string t xs (λ x. read_string-HasValue t x e) h in
    inl (cpp_string_vector ss, rw (f, get) refl, refl)
get-is_a bool_type v h e = no_vector-GetsTyped bool_type v refl h e
get-is_a float_type v h e = no_vector-GetsTyped float_type v refl h e
get-is_a double_type v h e = no_vector-GetsTyped double_type v refl h e
get-is_a string_type v h e = no_vector-GetsTyped string_type v refl h e
get-is_a node_id_type v h e = no_vector-GetsTyped node_id_type v refl h e
get-is_a qualified_name_type v h e = no_vector-GetsTyped qualified_name_type v refl h e
get-is_a localized_text_type v h e = no_vector-GetsTyped localized_text_type v refl h e
get-is_a (int_type k) v h e = no_vector-GetsTyped (int_type k) v refl h e
