-- ===== src/Objects/Tests.antt =====
-- A variable with three elements, and events of the small server.
use modern_opc.Base.{ℕ, ◌≡◌, ok, [], ◌∷◌, pos, negsuc, arith}
use modern_opc.Types.Tests.{c_text, c_text-ReadsCString}
use modern_opc.Types.NodeId.{IsNodeId, ua_numeric}
use modern_opc.Variant.{opaque}
use modern_opc.Variant.Access.{cpp_int_vector, type_of, get}
use modern_opc.Variant.Tests.{plain_variants, plain_variants-AreVariants}
use modern_opc.Server.Status.{good, other_status}
use modern_opc.Server.Ua.{UaVariableAttributes}
use modern_opc.Methods.{TypeIds}
use modern_opc.Objects.{Event, base_event, base_event_type_id, get_variable_attributes, UaEvents}
use modern_opc.Objects.Laws.{Shape, get_variable_attributes_lem}

abbrev type_ids : TypeIds
type_ids t = record { namespace_index = 0; identifier = ua_numeric 6 }

get_variable_attributes_lem_example :
    (attr : UaVariableAttributes) × (get_variable_attributes plain_variants c_text type_ids
        (cpp_int_vector (pos 1 ∷ negsuc 1 ∷ pos 3 ∷ []))
      ≡ ok attr)
    × (get (type_of (cpp_int_vector (pos 1 ∷ negsuc 1 ∷ pos 3 ∷ []))) attr.value
        ≡ ok (cpp_int_vector (pos 1 ∷ negsuc 1 ∷ pos 3 ∷ [])))
    × Shape attr.value attr.value_rank attr.array_dimensions
get_variable_attributes_lem_example =
    get_variable_attributes_lem plain_variants c_text type_ids
      (cpp_int_vector (pos 1 ∷ negsuc 1 ∷ pos 3 ∷ [])) plain_variants-AreVariants
      c_text-ReadsCString tt (omega arith)

abbrev event : Event
event = base_event base_event_type_id

event_type-IsNodeId : IsNodeId base_event_type_id
event_type-IsNodeId = record { ns_range = omega arith; holds = omega arith }

-- A server that cannot create events.
abbrev no_events : UaEvents ℕ
no_events = record {
  now = λ s. pos 0;
  date_time_value = λ z. opaque 0;
  create_event = λ s id. (other_status 3, id, s);
  write_object_property = λ s id n v. s;
  trigger_event = λ s id source. (good, s);
}
