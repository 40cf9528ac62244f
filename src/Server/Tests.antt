-- ===== src/Server/Tests.antt =====
-- Class Server over a small server of open62541: every id below 100 is an object of it.
use modern_opc.Base.{
  true, ◌≢◌, ◌⊎◌, text, Bytes, map, ℕ, suc, ◌≡◌, ◌≢◌, refl, false, [], ◌∷◌, List, pos, ok, Option,
  none, some, arith, to_u32, ltb, if◌then◌else◌, Returns, All,
}
use modern_opc.Types.Tests.{c_text, test_id, test_id-IsNodeId}
use modern_opc.Types.NodeId.{
  NodeId, IsNodeId, UaNodeId, ua_numeric, UaIdentifier, numeric_node_id, from_node_id,
}
use modern_opc.Types.Names.{empty_qualified_name}
use modern_opc.Variant.{array, string, string_value, empty}
use modern_opc.Server.Status.{
  is_good, UaStatusCode, good, other_status, UaNodeClass, class_object, class_unspecified,
}
use modern_opc.Server.Ua.{NewNode, UaServer}
use modern_opc.Server.Registry.{Node, find, emplace}
use modern_opc.Server.Nodes.{create_object, new_node, Server, get_object, get_objects_folder}
use modern_opc.Server.Lookup.{Later}
use modern_opc.Server.Lookup.Requests.{
  Request, gets_object, gets_variable, creates_object, IsRequest, handle_all, handle_all-Later,
}
use modern_opc.Server.Namespaces.{get_namespace_index}
use modern_opc.Server.Namespaces.Laws.{FirstAt, Unknown, get_namespace_index_lem}
use modern_opc.Server.Lookup.Creation.{Created, create_object_lem}
use modern_opc.Server.Lookup.Objects.{Answers, get_object_stable}

abbrev pub ua_ns0 : ℕ → UaNodeId
ua_ns0 n = record { namespace_index = 0; identifier = ua_numeric n }

-- The class of a node id in the small server.
abbrev class_of : UaIdentifier → UaStatusCode × UaNodeClass
class_of (ua_numeric n) =
    if ltb n 100 then (good, class_object) else (other_status 1, class_unspecified)
class_of _ = (other_status 1, class_unspecified)

-- Its state counts the nodes that were added.
abbrev pub small : UaServer ℕ
small = record {
  names = record {
    has_component = ua_ns0 47;
    hierarchical_references = ua_ns0 33;
    server_namespace_array = ua_ns0 2255;
  };
  text = c_text;
  add_object_node = λ s n t. (good, suc s);
  add_method_node = λ s n i o. (good, suc s);
  add_variable_node = λ s n t a. (other_status 2, s);
  read_node_class = λ s id. class_of id.identifier;
  set_node_context = λ s id c. s;
  set_data_source = λ s id. s;
  set_method_callback = λ s id. s;
  read_value = λ s id. (good, empty);
  write_value = λ s id v. (good, s);
  translate_browse_path = λ s id p. record { status_code = good; targets = [] };
}

abbrev pub start : Server ℕ
start = record { ua = 0; is_running = false; objects = []; methods = []; variables = []; next = 0 }

get_objects_folder_makes :
    get_objects_folder small start
    ≡ ok (
      some (record { address = 0; id = numeric_node_id 0 (pos 85) }),
      record start {
        objects =
            (numeric_node_id 0 (pos 85), record { address = 0; id = numeric_node_id 0 (pos 85) })
            ∷ [];
        next = 1;
      },
    )
unfolding get_objects_folder from_node_id find to_u32 emplace
get_objects_folder_makes = refl

abbrev folder_id : NodeId
folder_id = numeric_node_id 0 (pos 85)

folder_id-IsNodeId : IsNodeId folder_id
folder_id-IsNodeId = record { ns_range = omega arith; holds = omega arith }

abbrev requests : List Request
requests =
    gets_object folder_id
    ∷ creates_object folder_id test_id folder_id empty_qualified_name none
    ∷ gets_variable test_id
    ∷ []

requests-IsRequest : All IsRequest requests
requests-IsRequest = (
  folder_id-IsNodeId,
  ((folder_id-IsNodeId, test_id-IsNodeId, folder_id-IsNodeId), (test_id-IsNodeId, tt)),
)

handle_all-Later_example : Returns (Later start) (handle_all small requests start)
handle_all-Later_example = handle_all-Later small requests start requests-IsRequest (tt, tt, tt)

get_object_stable_example :
    (n : Option Node) × (t : Server ℕ) × (get_object small folder_id start ≡ ok (n, t))
    × Answers small folder_id start n t
    × Returns
        (λ u. (m : Node) → n ≡ some m → get_object small folder_id u ≡ ok (some m, u))
        (handle_all small requests t)
get_object_stable_example =
    get_object_stable small folder_id start requests folder_id-IsNodeId (tt, tt, tt)
      requests-IsRequest

abbrev pub uris : List Bytes
uris = text "http://opcfoundation.org/UA/" ∷ text "urn:app" ∷ []

abbrev pub with_uris : UaServer ℕ
with_uris = record small { read_value = λ s id. (good, array string (map string_value uris)) }

get_namespace_index_lem_example :
    ((n : ℕ) × FirstAt (text "urn:app") uris n
      × (get_namespace_index with_uris (text "urn:app") start ≡ ok n))
    ⊎ (Unknown (text "urn:app") uris
        × (get_namespace_index with_uris (text "urn:app") start ≡ ok 0))
get_namespace_index_lem_example =
    get_namespace_index_lem with_uris (text "urn:app") uris start refl (omega arith)

nothing_found : find test_id [] ≡ ok none
unfolding find
nothing_found = refl

create_object_lem_example :
    (args : NewNode) × (ua_type : UaNodeId) × (n : Option Node) × (t : Server ℕ) × (new_node small
        test_id folder_id empty_qualified_name
      ≡ ok args)
    × (from_node_id c_text folder_id ≡ ok ua_type)
    × (create_object small folder_id test_id folder_id empty_qualified_name (some 8) start
        ≡ ok (n, t))
    × (((n ≡ none) × (is_good (small.add_object_node 0 args ua_type).0 ≡ false))
        ⊎ ((n ≢ none) × (is_good (small.add_object_node 0 args ua_type).0 ≡ true)))
    × Created small test_id start n t
create_object_lem_example =
    create_object_lem small folder_id test_id folder_id empty_qualified_name (some 8) start
      folder_id-IsNodeId test_id-IsNodeId folder_id-IsNodeId (tt, tt, tt) nothing_found
