-- ===== src/Types/Tests.antt =====
-- The value types at concrete inputs: the theorems' instances, and runs that follow the tests of
-- tests/nodeId.cpp.
use modern_opc.Base.{
  ◌≡◌, ◌↔◌, refl, true, Bytes, text, c_string, [], ◌∷◌, pos, ok, ◌>>=◌, Decides, arith, decimal,
}
use modern_opc.Types.UaText.{UaText, ReadsCString}
use modern_opc.Types.Guid.{Guid, IsGuid, guid_eq, guid_memory, le_bytes, byte_string_hash}
use modern_opc.Types.Guid.Memory.{guid_eq_iff}
use modern_opc.Types.NodeId.{
  NodeId, IsNodeId, numeric_node_id, string_node_id, guid_node_id, node_id_eq, StdHash, get_hash,
  UaNodeId, ua_numeric, from_node_id, from_ua_node_id,
}
use modern_opc.Types.NodeId.Equality.{node_id_eq-Decides, get_hash_respects_eq}
use modern_opc.Types.NodeId.Conversion.{from_ua_node_id-from_node_id, from_node_id-from_ua_node_id}
use modern_opc.Types.NodeId.Print.{print_node_id, print_node_id-injective}

-- The text constructors as open62541 documents them.
abbrev pub c_text : UaText
c_text = record {
  make_string = c_string;
  make_byte_string = c_string;
  make_qualified_name = λ ns s. record { namespace_index = ns; name = c_string s };
  alloc_localized_text = λ l s. record { locale = c_string l; text = c_string s };
}

pub c_text-ReadsCString : ReadsCString c_text
c_text-ReadsCString = record {
  make_string_lem = λ s. refl;
  make_byte_string_lem = λ s. refl;
  make_qualified_name_lem = λ ns s. refl;
  alloc_localized_text_lem = λ l s. refl;
}

abbrev pub test_id : NodeId
test_id = string_node_id 1 (text "test")

abbrev number_id : NodeId
number_id = numeric_node_id 1 (pos 2222)

pub test_id-IsNodeId : IsNodeId test_id
test_id-IsNodeId = record { ns_range = omega arith; holds = tt }

number_id-IsNodeId : IsNodeId number_id
number_id-IsNodeId = record { ns_range = omega arith; holds = omega arith }

abbrev some_guid : Guid
some_guid = record {
  data1 = 0x0a0b0c0d;
  data2 = 258;
  data3 = 3;
  data4 = 1 ∷ 2 ∷ 3 ∷ 4 ∷ 5 ∷ 6 ∷ 7 ∷ 8 ∷ [];
}

some_guid-IsGuid : IsGuid some_guid
some_guid-IsGuid = record {
  data1_range = omega arith;
  data2_range = omega arith;
  data3_range = omega arith;
  data4_size = refl;
}

memory_layout :
    guid_memory some_guid ≡ 13 ∷ 12 ∷ 11 ∷ 10 ∷ 2 ∷ 1 ∷ 3 ∷ 0 ∷ 1 ∷ 2 ∷ 3 ∷ 4 ∷ 5 ∷ 6 ∷ 7 ∷ 8 ∷ []
unfolding guid_memory le_bytes
memory_layout = refl

hash_of_one : byte_string_hash (1 ∷ []) ≡ 16777619
unfolding byte_string_hash
hash_of_one = refl

guid_eq_iff_example : (guid_eq some_guid some_guid ≡ true) ↔ (some_guid ≡ some_guid)
guid_eq_iff_example = guid_eq_iff some_guid some_guid some_guid-IsGuid some_guid-IsGuid

node_id_eq-Decides_example : Decides (node_id_eq test_id number_id) test_id number_id
node_id_eq-Decides_example =
    node_id_eq-Decides test_id number_id test_id-IsNodeId number_id-IsNodeId

abbrev some_hash : StdHash
some_hash = record {
  hash_uint16 = λ n. n;
  hash_int = λ z. 7;
  hash_string = λ s. 5;
  hash_variant = λ i h. h;
}

same_number : node_id_eq number_id number_id ≡ ok true
unfolding node_id_eq
same_number = refl

get_hash_respects_eq_example : get_hash some_hash number_id ≡ get_hash some_hash number_id
get_hash_respects_eq_example = get_hash_respects_eq some_hash number_id number_id same_number

from_ua_node_id-from_node_id_example :
    (from_node_id c_text test_id >>= λ u. ok (from_ua_node_id u)) ≡ ok test_id
from_ua_node_id-from_node_id_example =
    from_ua_node_id-from_node_id c_text test_id c_text-ReadsCString test_id-IsNodeId (omega arith)

abbrev ua_id : UaNodeId
ua_id = record { namespace_index = 3; identifier = ua_numeric 4_294_967_295 }

from_node_id-from_ua_node_id_example : from_node_id c_text (from_ua_node_id ua_id) ≡ ok ua_id
from_node_id-from_ua_node_id_example =
    from_node_id-from_ua_node_id c_text ua_id c_text-ReadsCString (omega arith) (omega arith)

print_test_id : print_node_id test_id ≡ ok (text "ns=1;s=test")
unfolding print_node_id decimal
print_test_id = refl

print_some_guid :
    print_node_id (guid_node_id 2 some_guid) ≡ ok (text "ns=2;g=168496141-258-3-1-2-3-4-5-6-7-8")
unfolding print_node_id decimal
print_some_guid = refl

print_node_id-injective_example :
    (s : Bytes) × (print_node_id test_id ≡ ok s)
    × (print_node_id number_id ≡ ok s → test_id ≡ number_id)
print_node_id-injective_example =
    print_node_id-injective test_id number_id test_id-IsNodeId number_id-IsNodeId
