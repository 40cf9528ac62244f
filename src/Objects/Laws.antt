-- ===== src/Objects/Laws.antt =====
-- getVariableAttributes (modernopc/include/modernopc/VariableAttributes.h) and
-- ObjectNode::setEvent (modernopc/src/nodes/ObjectNode.cpp).
use modern_opc.Base.{
  ℕ, zero, suc, ◌<◌, ◌%◌, ◌^◌, ◌+◌, ◌≡◌, refl, sym, ap, ◌∙◌, subst, false, text, ℤ, pos, negsuc,
  Outcome, ok, faults, bad_access, ◌>>=◌, >>=-eq-ok, List, [], ◌∷◌, map, length, length-append,
  none, arith,
}
use modern_opc.Types.NodeId.{NodeId, UaNodeId, IsNodeId, from_node_id}
use modern_opc.Types.NodeId.Conversion.{from_node_id-total}
use modern_opc.Types.UaText.{UaText, ReadsCString}
use modern_opc.Variant.{
  node_id_value, UaType, UaVariant, empty, scalar, array, UaVariants, AreVariants, Value, int32,
  int_value, string_value, node_id_value,
}
use modern_opc.Variant.Access.{
  node_id_type, CppValue, cpp_bool, cpp_int, cpp_float, cpp_double, cpp_string, cpp_node_id,
  cpp_qualified_name, cpp_localized_text, cpp_int_vector, cpp_string_vector, type_of, get,
  get_data_type, node_id_type, to_ua_variant, vector_to_ua_variant,
}
use modern_opc.Variant.Access.RoundTrip.{Survives, to_ua_variant-ReadsBack}
use modern_opc.Server.Status.{is_good}
use modern_opc.Server.Ua.{UaServer, UaVariableAttributes}
use modern_opc.Server.Nodes.{Server}
use modern_opc.Methods.{TypeIds}
use modern_opc.Objects.{
  name_in_ns0, rank_of, dimensions_of, get_variable_attributes, Event, set_event_field,
  set_source_node, UaEvents, set_up_event, set_event,
}

-- The rank and the dimensions that describe a value.
abbrev pub Shape : UaVariant → ℤ → List ℕ → Type 0
Shape empty r ds = ⊥
Shape (scalar t v) r ds = (r ≡ negsuc 0) × (ds ≡ [])
Shape (array t vs) r ds = (r ≡ pos 1) × (ds ≡ length vs ∷ [])

-- A vector whose length a UA_UInt32 can hold.
abbrev pub FitsDimension : CppValue → Type 0
FitsDimension (cpp_int_vector zs) = length zs < 2 ^ 32
FitsDimension (cpp_string_vector ss) = length ss < 2 ^ 32
FitsDimension v = Unit {0}

length-map : {A B : Type 0} (f : A → B) (xs : List A) → length (map f xs) ≡ length xs
length-map f [] = refl
length-map f (x ∷ xs) = ap suc (length-map f xs)

ok-injective : {A : Type 0} {x y : A} → ok x ≡ ok y → x ≡ y
ok-injective e = cc e

module _ (u : UaVariants) (t : UaText) (a : AreVariants u) where
  scalar-Shape :
      (k : UaType) (v : Value) (x : UaVariant)
      → ok (u.set_scalar_copy k v) ≡ ok x
      → Shape x (negsuc 0) []
  scalar-Shape k v x e =
      subst (λ y. Shape y (negsuc 0) []) (sym (a.set_scalar_copy_lem k v) ∙ ok-injective e)
        (refl, refl)

  array-Shape :
      (k : UaType) (vs : List Value) (n : ℕ) (x : UaVariant)
      → length vs ≡ n
      → ok (u.set_array_copy k vs) ≡ ok x
      → Shape x (pos 1) (n ∷ [])
  array-Shape k vs n x l e =
      subst (λ y. Shape y (pos 1) (n ∷ [])) (sym (a.set_array_copy_lem k vs) ∙ ok-injective e)
        (refl, ap (λ m. m ∷ []) (sym l))

  to_ua_variant-Shape :
      (v : CppValue) (x : UaVariant)
      → to_ua_variant u t v ≡ ok x
      → FitsDimension v
      → Shape x (rank_of v) (dimensions_of v)
  unfolding to_ua_variant vector_to_ua_variant
  to_ua_variant-Shape (cpp_bool b) x e fits = scalar-Shape _ _ x e
  to_ua_variant-Shape (cpp_int k z) x e fits = scalar-Shape _ _ x e
  to_ua_variant-Shape (cpp_float b) x e fits = scalar-Shape _ _ x e
  to_ua_variant-Shape (cpp_double b) x e fits = scalar-Shape _ _ x e
  to_ua_variant-Shape (cpp_string s) x e fits = scalar-Shape _ _ x e
  to_ua_variant-Shape (cpp_node_id id) x e fits =
      let (i, _, f) = >>=-eq-ok (from_node_id t id) _ e in scalar-Shape _ _ x f
  to_ua_variant-Shape (cpp_qualified_name n) x e fits = scalar-Shape _ _ x e
  to_ua_variant-Shape (cpp_localized_text l) x e fits = scalar-Shape _ _ x e
  to_ua_variant-Shape (cpp_int_vector zs) x e fits =
      array-Shape _ _ (length zs % 2 ^ 32) x (length-map (int_value int32) zs ∙ omega (arith, fits))
        e
  to_ua_variant-Shape (cpp_string_vector ss) x e fits =
      array-Shape _ _ (length ss % 2 ^ 32) x (length-map string_value ss ∙ omega (arith, fits)) e

-- The attributes that getVariableAttributes makes of a value that survives the way through
-- open62541, a vector of fewer than 2^32 elements: the initial value reads back as that value, and rank
-- and dimensions describe it.
pub get_variable_attributes_lem :
    (u : UaVariants) (t : UaText) (ids : TypeIds) (v : CppValue)
    → AreVariants u
    → ReadsCString t
    → Survives v
    → FitsDimension v
    → (attr : UaVariableAttributes) × (get_variable_attributes u t ids v ≡ ok attr)
      × (get (type_of v) attr.value ≡ ok v)
      × Shape attr.value attr.value_rank attr.array_dimensions
unfolding get_variable_attributes
get_variable_attributes_lem u t ids v a r s fits =
    let (x, e, _, g) = to_ua_variant-ReadsBack u t v a r s in
    (
      record {
        access_level = 3;
        data_type = ids (get_data_type (type_of v));
        value_rank = rank_of v;
        array_dimensions = dimensions_of v;
        value = x;
      },
      rw (e, get_variable_attributes) refl,
      g,
      to_ua_variant-Shape u t a v x e fits,
    )

-- The event of `setEvent` called `n` times on one event, as far as the event goes.
abbrev pub sent : UaVariants → UaText → NodeId → ℕ → Event → Outcome Event
sent u t id zero e = ok e
sent u t id (suc n) e = set_source_node u t id e >>= (λ e'. sent u t id n e')

abbrev source_field : UaVariants → UaNodeId → Event → Event
source_field u i e =
    set_event_field (name_in_ns0 (text "SourceNode") ∷ [])
      (u.set_scalar_copy (get_data_type node_id_type) (node_id_value i)) e

set_source_node-total :
    (u : UaVariants) (t : UaText) (id : NodeId) (e : Event)
    → IsNodeId id
    → (e' : Event) × (set_source_node u t id e ≡ ok e')
      × (length e'.event_fields ≡ length e.event_fields + 1)
      × (e'.event_type ≡ e.event_type)
unfolding set_source_node to_ua_variant set_event_field
set_source_node-total u t id e v =
    let (i, p) = from_node_id-total t id v in
    (source_field u i e, rw (p, set_source_node) refl, length-append e.event_fields _, refl)

-- The defect of setEvent: it adds a SourceNode field to the event that it is given, so an event
-- that is sent n times has n more fields, all of which setUpEvent writes each time.
pub sent_grows :
    (u : UaVariants) (t : UaText) (id : NodeId) (n : ℕ) (e : Event)
    → IsNodeId id
    → (e' : Event) × (sent u t id n e ≡ ok e')
      × (length e'.event_fields ≡ length e.event_fields + n)
sent_grows u t id zero e v = (e, refl, omega arith)
sent_grows u t id (suc n) e v =
    let (e', p, q, _) = set_source_node-total u t id e v in
    let (e'', r, l) = sent_grows u t id n e' v in (e'', rw p r, omega arith)

set_up_event_bad :
    {S : Type 0} (U : UaServer S) (V : UaEvents S) (u : UaVariants) (e : Event) (s : Server S)
    (type : UaNodeId)
    → from_node_id U.text e.event_type ≡ ok type
    → is_good (V.create_event s.ua type).0 ≡ false
    → set_up_event U V u e s
      ≡ ok ((V.create_event s.ua type).0, none, record s { ua = (V.create_event s.ua type).2 })
unfolding set_up_event
set_up_event_bad U V u e s type p q = rw (p, q, set_up_event) refl

-- The defect of setEvent: when open62541 cannot create the event, setEvent goes on to trigger a node
-- id that was never set.
pub set_event_unset :
    {S : Type 0} (U : UaServer S) (V : UaEvents S) (u : UaVariants) (self : NodeId) (e : Event)
    (s : Server S)
    → IsNodeId self
    → IsNodeId e.event_type
    → ((type : UaNodeId) → is_good (V.create_event s.ua type).0 ≡ false)
    → set_event U V u self e s ≡ faults bad_access
unfolding set_event
set_event_unset U V u self e s v w bad =
    let (e', p, _, same) = set_source_node-total u U.text self e v in
    let (type, q) = from_node_id-total U.text e.event_type w in
    let (source, r) = from_node_id-total U.text self v in
    rw
      (
        p,
        set_up_event_bad U V u e' s type (ap (from_node_id U.text) same ∙ q) (bad type),
        r,
        set_event,
      )
      refl
