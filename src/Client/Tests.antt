-- ===== src/Client/Tests.antt =====
-- A client of a small server with two namespaces.
use modern_opc.Client.Outputs.{
  IsOutputArray, wrap_outputs, destroy_outputs, destroy_outputs-wrap_outputs,
}
use modern_opc.Variant.Ownership.Tests.{memory, two_objects}
use modern_opc.Variant.Ownership.{is_heap}
use modern_opc.Variant.Tests.{dec_equal, dec_equal_iff, UaNodeId-discrete}
use modern_opc.Client.Nodesets.Laws.{KeepsTypes, load_nodeset-create_variant}
use modern_opc.Client.Nodesets.{UaLoader, set_namespace, load_nodeset, create_variant_from_json}
use modern_opc.Client.Bounds.{HasIds, client_ids-Concludes}
use modern_opc.Base.{
  if◌then◌else◌, zero, ◌+◌, ◌<◌, bad_access, get_elem?, pos, true, some, Concludes, List, to_u32,
  ◌%◌, ◌^◌, faults, null_dereference, ℕ, suc, ◌≡◌, refl, ◌⊎◌, false, text, ok, [], ◌∷◌, ◌++◌, map,
  negsuc, decimal_int, arith,
}
use modern_opc.Types.Tests.{c_text-ReadsCString, c_text}
use modern_opc.Types.NodeId.{IsNodeId, from_ua_node_id, numeric_node_id, string_node_id, ua_numeric}
use modern_opc.Variant.{scalar, custom, empty, string_value, array, string}
use modern_opc.Server.Status.{is_good, class_object, good}
use modern_opc.Server.Tests.{uris}
use modern_opc.Client.{
  UaReference, UaDataType, browse, find_custom_data_type, UaClient, Client, disconnected, connect,
  resolve_namespace_uri, resolve,
}
use modern_opc.Client.Laws.{resolve_lem, connect_again_keeps_index}

abbrev reference : UaReference
reference = record {
  node_id = record { namespace_index = 1; identifier = ua_numeric 85 };
  browse_name = record { namespace_index = 1; name = text "x" };
  node_class = class_object;
}

abbrev ua_client : UaClient ℕ
ua_client = record {
  text = c_text;
  server_namespace_array = record { namespace_index = 0; identifier = ua_numeric 2255 };
  hierarchical_references = record { namespace_index = 0; identifier = ua_numeric 33 };
  connect = λ s uri. (good, suc s);
  disconnect = λ s. s;
  read_value_attribute = λ s id. (good, array string (map string_value uris));
  write_value_attribute = λ s id v. (good, s);
  call = λ s o m vs. (good, vs, s);
  browse = λ s id r. record { service_result = good; results = (reference ∷ []) ∷ [] };
  node_id_equal = λ a b. false;
  custom_data_types = λ s. [];
}

abbrev client : Client ℕ
client = record {
  ua = 0;
  uri = text "opc.tcp://localhost";
  callbacks = [];
  conn_state = disconnected;
  namespaces = [];
}

-- It was connected before, when the server had `urn:app` at index 0.
abbrev stale : Client ℕ
stale = record client { namespaces = text "urn:app" ∷ [] }

resolve_lem_example :
    (resolve ua_client
        (record {
          namespace_uri = text "urn:app";
          identifier = text "i=" ++ decimal_int (negsuc 6);
        })
        stale
      ≡ ok (numeric_node_id 0 (negsuc 6)))
    × (resolve ua_client
          (record { namespace_uri = text "urn:app"; identifier = text "s=" ++ text "x" })
          stale
        ≡ ok (string_node_id 0 (text "x")))
resolve_lem_example =
    resolve_lem ua_client (text "urn:app") 0 (negsuc 6) (text "x") stale (omega arith) (omega arith)
      refl

connect_again_keeps_index_example :
    resolve_namespace_uri ua_client (text "urn:app") (connect ua_client stale).1 ≡ ok 0
connect_again_keeps_index_example =
    connect_again_keeps_index ua_client stale 1 (text "urn:app") 0 uris refl refl refl

client_ids-Concludes_example :
    Concludes IsNodeId
      (resolve ua_client (record { namespace_uri = text "urn:app"; identifier = text "i=x" }) stale)
    × Concludes HasIds (browse ua_client (numeric_node_id 1 (negsuc 6)) stale)
client_ids-Concludes_example =
    client_ids-Concludes ua_client
      (record { namespace_uri = text "urn:app"; identifier = text "i=x" })
      (numeric_node_id 1 (negsuc 6)) stale (record { ns_range = omega arith; holds = omega arith })
      (λ u. (((omega arith, tt), tt), tt))

abbrev point_type : UaDataType
point_type = record {
  address = 4;
  type_id = record { namespace_index = 1; identifier = ua_numeric 3002 };
  binary_encoding_id = record { namespace_index = 1; identifier = ua_numeric 3003 };
}

-- A client whose state is its customDataTypes.
abbrev typed_client : UaClient (List (List UaDataType))
typed_client = record {
  text = c_text;
  server_namespace_array = ua_client.server_namespace_array;
  hierarchical_references = ua_client.hierarchical_references;
  connect = λ s uri. (good, s);
  disconnect = λ s. s;
  read_value_attribute = λ s id. (good, array string (map string_value uris));
  write_value_attribute = λ s id v. (good, s);
  call = λ s o m vs. (good, vs, s);
  browse = λ s id r. record { service_result = good; results = [] };
  node_id_equal = dec_equal UaNodeId-discrete;
  custom_data_types = λ s. s;
}

abbrev loader : UaLoader (List (List UaDataType))
loader = record {
  load_file = λ path. (true, (point_type ∷ []) ∷ []);
  decode_json = λ s t. (good, string_value s);
  set_custom_data_types = λ s arrays. arrays;
}

abbrev typed_start : Client (List (List UaDataType))
typed_start = record {
  ua = [];
  uri = text "opc.tcp://localhost";
  callbacks = [];
  conn_state = disconnected;
  namespaces = [];
}

typed_client-KeepsTypes : KeepsTypes typed_client loader
typed_client-KeepsTypes = record {
  node_id_equal_iff = dec_equal_iff UaNodeId-discrete;
  custom_data_types-set = λ s arrays. refl;
}

load_nodeset-create_variant_example :
    (c' : Client (List (List UaDataType))) × (j : ℕ) × (found : UaDataType) × (load_nodeset
        typed_client loader
        (text "di.xml")
        (pos 2)
        typed_start
      ≡ (ok true, c'))
    × (get_elem? (map (set_namespace (pos 2)) (point_type ∷ [])) j ≡ some found)
    × (found.type_id ≡ record point_type.type_id { namespace_index = to_u32 (pos 2) % 2 ^ 16 })
    × (find_custom_data_type typed_client found.type_id c' ≡ some found)
    × (create_variant_from_json typed_client loader (text "{}") (from_ua_node_id found.type_id) c'
        ≡ ok (
            if is_good (loader.decode_json (text "{}") found).0
            then scalar (custom found.address) (loader.decode_json (text "{}") found).1
            else empty))
load_nodeset-create_variant_example =
    load_nodeset-create_variant typed_client loader (text "di.xml") (pos 2) (point_type ∷ []) [] 0
      point_type (text "{}") typed_start typed_client-KeepsTypes c_text-ReadsCString refl refl
      (omega arith)

-- A nodeset without data types.
without_types :
    load_nodeset typed_client
      (record loader { load_file = λ path. (true, []) })
      (text "x.xml")
      (pos 2)
      typed_start
    ≡ (faults null_dereference, typed_start)
unfolding load_nodeset
without_types = refl

two_outputs-IsOutputArray : IsOutputArray memory two_objects.mem 0 2
two_outputs-IsOutputArray = record { first_heap = refl; others_inside = λ k h. inside k h }
  where
    inside : (k : ℕ) → suc k < 2 → is_heap (memory.cell two_objects.mem (0 + suc k)) ≡ false
    inside zero h = refl
    inside (suc k) h = absurd (omega arith)

destroy_outputs-wrap_outputs_example :
    (◌≡◌ {A = ℕ} 2 1
      × (destroy_outputs memory (wrap_outputs memory 2 0) two_objects.mem
          ≡ ok (memory.delete two_objects.mem 0)))
    ⊎ ((1 < 2)
        × (destroy_outputs memory (wrap_outputs memory 2 0) two_objects.mem ≡ faults bad_access))
destroy_outputs-wrap_outputs_example =
    destroy_outputs-wrap_outputs memory two_objects.mem 0 2 two_outputs-IsOutputArray (omega arith)
