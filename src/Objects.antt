-- ===== src/Objects.antt =====
-- class ObjectNode (modernopc/include/modernopc/nodes/ObjectNode.h, modernopc/src/nodes/ObjectNode.cpp),
-- the attributes of a variable (modernopc/include/modernopc/VariableAttributes.h) and events
-- (modernopc/include/modernopc/events/BaseEventType.h).
pub mod Laws
pub mod Tests
use modern_opc.Base.{
  ℕ, zero, suc, Bool, true, false, if◌then◌else◌, Bytes, text, ℤ, pos, negsuc, Outcome, ok, faults,
  bad_access, ◌>>=◌, List, [], ◌∷◌, ◌++◌, Option, none, some, length, ◌%◌, ◌^◌,
}
use modern_opc.Types.NodeId.{
  NodeId, UaNodeId, numeric_node_id, null_node_id, from_node_id, from_ua_node_id,
}
use modern_opc.Types.UaText.{UaText, UaQualifiedName, UaLocalizedText}
use modern_opc.Types.Names.{QualifiedName, LocalizedText}
use modern_opc.Variant.{
  UaType, integer, uint16, date_time, string, localized_text, Value, int_value, opaque,
  string_value, localized_text_value, UaVariant, UaVariants, scalar,
}
use modern_opc.Variant.Access.{
  CppValue, cpp_localized_text, cpp_node_id, cpp_int_vector, cpp_string_vector, type_of,
  get_data_type, to_ua_variant,
}
use modern_opc.Server.Status.{UaStatusCode, good, is_good}
use modern_opc.Server.Registry.{Node}
use modern_opc.Server.Ua.{UaServer, UaVariableAttributes}
use modern_opc.Server.Nodes.{
  Server, Made, create_object, create_method, create_variable, connect_method_callback,
}
use modern_opc.Server.Namespaces.{translate_path_to_node_id}
use modern_opc.Methods.{TypeIds, Signature, get_input_arguments, get_output_arguments}

-- The rank and the dimensions that the two overloads of getVariableAttributes set. A dimension is a
-- UA_UInt32.
abbrev pub rank_of : CppValue → ℤ
rank_of (cpp_int_vector zs) = pos 1
rank_of (cpp_string_vector ss) = pos 1
rank_of v = negsuc 0

abbrev pub dimensions_of : CppValue → List ℕ
dimensions_of (cpp_int_vector zs) = length zs % 2 ^ 32 ∷ []
dimensions_of (cpp_string_vector ss) = length ss % 2 ^ 32 ∷ []
dimensions_of v = []

-- getVariableAttributes. UA_ACCESSLEVELMASK_READ is 1 and UA_ACCESSLEVELMASK_WRITE is 2.
unfoldable pub get_variable_attributes :
    UaVariants → UaText → TypeIds → CppValue → Outcome UaVariableAttributes
unfolding to_ua_variant get_data_type
get_variable_attributes u t ids v = do
  var ← to_ua_variant u t v
  ok (record {
    access_level = 3;
    data_type = ids (get_data_type (type_of v));
    value_rank = rank_of v;
    array_dimensions = dimensions_of v;
    value = var;
  })

-- BaseEventType: its type and its fields, each a path and a value
pub record Event : Type 0 where
  pub event_type : NodeId
  pub event_fields : List (List QualifiedName × UaVariant)

abbrev pub base_event : NodeId → Event
base_event id = record { event_type = id; event_fields = [] }

abbrev pub base_event_type_id : NodeId
base_event_type_id = numeric_node_id 0 (pos 2041)

abbrev pub transition_event : Event
transition_event = base_event (numeric_node_id 0 (pos 2311))

abbrev pub name_in_ns0 : Bytes → QualifiedName
name_in_ns0 s = record { ns_idx = 0; name = s }

-- BaseEventType::setEventField
unfoldable pub set_event_field : List QualifiedName → UaVariant → Event → Event
set_event_field path var e = record e { event_fields = e.event_fields ++ ((path, var) ∷ []) }

module _ (u : UaVariants) (t : UaText) where
  -- BaseEventType::setMessage
  unfoldable pub set_message : LocalizedText → Event → Outcome Event
  unfolding set_event_field to_ua_variant
  set_message m e = do
    var ← to_ua_variant u t (cpp_localized_text m)
    ok (set_event_field (name_in_ns0 (text "Message") ∷ []) var e)

  -- BaseEventType::setSourceNode
  unfoldable pub set_source_node : NodeId → Event → Outcome Event
  unfolding set_event_field to_ua_variant
  set_source_node id e = do
    var ← to_ua_variant u t (cpp_node_id id)
    ok (set_event_field (name_in_ns0 (text "SourceNode") ∷ []) var e)

  -- TransitionEventType::setTransition
  unfoldable pub set_transition : LocalizedText → NodeId → Event → Outcome Event
  unfolding set_event_field to_ua_variant
  set_transition transition id e = do
    var ← to_ua_variant u t (cpp_localized_text transition)
    id_var ← to_ua_variant u t (cpp_node_id id)
    ok (
        set_event_field (name_in_ns0 (text "Transition") ∷ name_in_ns0 (text "Id") ∷ []) id_var
          (set_event_field (name_in_ns0 (text "Transition") ∷ []) var e))

-- The functions of open62541 for events. `now` is UA_DateTime_now.
pub record UaEvents (S : Type 0) : Type 0 where
  pub now : S → ℤ
  pub date_time_value : ℤ → Value
  pub create_event : S → UaNodeId → UaStatusCode × UaNodeId × S
  pub write_object_property : S → UaNodeId → UaQualifiedName → UaVariant → S
  pub trigger_event : S → UaNodeId → UaNodeId → UaStatusCode × S

module _ {S : Type 0} (U : UaServer S) (V : UaEvents S) (u : UaVariants) where
  -- One write of UA_Server_writeObjectProperty_scalar, whose status is not looked at.
  unfoldable pub write_property : UaNodeId → Bytes → UaType → Value → S → S
  write_property id name type value s =
      V.write_object_property s id (record { namespace_index = 0; name = name }) (scalar type value)

  -- The attributes that setUpEvent writes itself.
  unfoldable pub write_defaults : UaNodeId → S → S
  unfolding write_property
  write_defaults id s =
      let s₁ = write_property id (text "Time") date_time (V.date_time_value (V.now s)) s in
      let s₂ =
        write_property id (text "Severity") (integer uint16) (int_value uint16 (pos 100)) s₁ in
      let s₃ =
        write_property id (text "Message") localized_text
          (localized_text_value
            (record { locale = []; text = text "An event has been generated." }))
          s₂ in
      write_property id (text "SourceName") string (string_value (text "Server")) s₃

  -- One round of the loop over the fields: a field whose path is not resolved is passed over, and
  -- the status of the write is only logged.
  unfoldable pub write_field :
      UaNodeId → List QualifiedName → UaVariant → Server S → Outcome (Server S)
  unfolding translate_path_to_node_id from_ua_node_id
  write_field id path var s = do
    (status, target) ← translate_path_to_node_id U (from_ua_node_id id) path null_node_id s
    if is_good status
        then from_node_id U.text target
          >>= (λ ua_target. ok (record s { ua = (U.write_value s.ua ua_target var).1 }))
        else ok s

  unfoldable pub write_fields :
      UaNodeId → List (List QualifiedName × UaVariant) → Server S → Outcome (Server S)
  unfolding write_field
  write_fields id [] s = ok s
  write_fields id ((path, var) ∷ fs) s = do t ← write_field id path var s; write_fields id fs t

  -- ObjectNode::setUpEvent: the status, and `*outId` if it was set
  unfoldable pub set_up_event :
      Event → Server S → Outcome (UaStatusCode × Option UaNodeId × Server S)
  unfolding write_defaults write_fields
  set_up_event e s = do
    type ← from_node_id U.text e.event_type
    let (status, id, ua) = V.create_event s.ua type
    if is_good status
        then write_fields id e.event_fields (record s { ua = write_defaults id ua })
          >>= (λ t. ok (good, some id, t))
        else ok (status, none, record s { ua = ua })

  -- ObjectNode::setEvent of the object `self`: the event and the server afterwards. When setUpEvent
  -- fails, the id that it triggers was never set.
  unfoldable pub set_event : NodeId → Event → Server S → Outcome (Event × Server S)
  unfolding set_source_node set_up_event
  set_event self e s = do
    e' ← set_source_node u U.text self e
    (status, id, t) ← set_up_event e' s
    source ← from_node_id U.text self
    elim id [
      | none ↦ faults bad_access
      | some i ↦ ok (e', record t { ua = (V.trigger_event t.ua i source).1 })
    ]

module _ {S : Type 0} (U : UaServer S) (u : UaVariants) (ids : TypeIds) where
  -- ObjectNode::addObject of the object `self`
  unfoldable pub add_object :
      NodeId → NodeId → QualifiedName → Option ℕ → NodeId → Server S → Made S
  unfolding create_object
  add_object self id name context type s = create_object U self id type name context s

  -- ObjectNode::addVariable
  unfoldable pub add_variable :
      NodeId → NodeId → NodeId → QualifiedName → CppValue → Server S → Made S
  unfolding get_variable_attributes create_variable
  add_variable self requested type name initial s = do
    attr ← get_variable_attributes u U.text ids initial
    create_variable U self requested type name attr s

  -- ObjectNode::addBaseDataTypeVariable
  unfoldable pub add_base_data_type_variable :
      NodeId → NodeId → QualifiedName → CppValue → Server S → Made S
  unfolding add_variable
  add_base_data_type_variable self requested name initial s =
      add_variable self requested (numeric_node_id 0 (pos 63)) name initial s

  -- ObjectNode::addMethod, `callable` being the address of the Call that bindCallable makes
  unfoldable pub add_method : NodeId → NodeId → QualifiedName → Signature → ℕ → Server S → Made S
  unfolding create_method connect_method_callback get_input_arguments get_output_arguments
  add_method self method name g callable s = do
    (ptr, t) ←
        create_method U self method name (get_input_arguments ids g) (get_output_arguments ids g) s
    elim ptr [
      | none ↦ ok (none, t)
      | some n ↦ connect_method_callback U n.id (some callable) t >>= (λ w. ok (some n, w))
    ]
