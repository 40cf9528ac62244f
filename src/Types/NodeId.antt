-- ===== src/Types/NodeId.antt =====
-- class NodeId of modernopc/include/modernopc/types/NodeId.h, with the conversions, the comparison
-- and the hash of modernopc/src/types/NodeId.cpp. The open62541 calls UA_STRING and UA_BYTESTRING
-- and the values of std::hash are parameters.
pub mod Equality
pub mod Conversion
pub mod Print
use modern_opc.Base.{
  ℕ, ◌*◌, ◌%◌, ◌^◌, ◌<◌, Bool, true, false, ◌==◌, if◌then◌else◌, not, Bytes, bytes_eq, bit_xor, ℤ,
  pos, int_eq, IsInt32, to_u32, to_int, Outcome, ok, throws, faults, bad_variant_access, ◌>>=◌,
  c_string, ◌≡◌,
}
use modern_opc.Types.UaText.{UaText}
use modern_opc.Types.Guid.{Guid, IsGuid, guid_eq, guid_hash}

pub data IdentifierType : Type 0 where
  numeric string guid byte_string : IdentifierType

-- std::variant<int, std::string, Guid>
pub data Identifier : Type 0 where
  int_id : ℤ → Identifier
  string_id : Bytes → Identifier
  guid_id : Guid → Identifier

pub record NodeId : Type 0 where
  pub ns_idx : ℕ
  pub type : IdentifierType
  pub i : Identifier

-- The constructors of the class.
abbrev pub null_node_id : NodeId
null_node_id = record { ns_idx = 0; type = numeric; i = int_id (pos 0) }

abbrev pub numeric_node_id : ℕ → ℤ → NodeId
numeric_node_id ns id = record { ns_idx = ns; type = numeric; i = int_id id }

abbrev pub typed_node_id : ℕ → Bytes → IdentifierType → NodeId
typed_node_id ns id t = record { ns_idx = ns; type = t; i = string_id id }

abbrev pub string_node_id : ℕ → Bytes → NodeId
string_node_id ns id = typed_node_id ns id string

abbrev pub guid_node_id : ℕ → Guid → NodeId
guid_node_id ns id = record { ns_idx = ns; type = guid; i = guid_id id }

-- std::get, which throws if the variant holds another alternative
unfoldable pub get_int : Identifier → Outcome ℤ
get_int (int_id z) = ok z
get_int _ = throws bad_variant_access

unfoldable pub get_string : Identifier → Outcome Bytes
get_string (string_id s) = ok s
get_string _ = throws bad_variant_access

unfoldable pub get_guid : Identifier → Outcome Guid
get_guid (guid_id g) = ok g
get_guid _ = throws bad_variant_access

-- The identifier is of the kind that the type tag names, and in range.
abbrev pub Holds : IdentifierType → Identifier → Type 0
Holds numeric (int_id z) = IsInt32 z
Holds string (string_id s) = Unit {0}
Holds byte_string (string_id s) = Unit {0}
Holds guid (guid_id g) = IsGuid g
Holds _ _ = ⊥

pub record IsNodeId (id : NodeId) : Type 0 where
  pub ns_range : id.ns_idx < 2 ^ 16
  pub holds : Holds id.type id.i

unfoldable pub type_eq : IdentifierType → IdentifierType → Bool
type_eq numeric numeric = true
type_eq string string = true
type_eq guid guid = true
type_eq byte_string byte_string = true
type_eq _ _ = false

-- The switch of NodeId::operator==.
unfoldable pub identifier_eq : IdentifierType → Identifier → Identifier → Outcome Bool
identifier_eq numeric i j = do a ← get_int i; b ← get_int j; ok (int_eq a b)
identifier_eq byte_string i j = do a ← get_string i; b ← get_string j; ok (bytes_eq a b)
identifier_eq string i j = do a ← get_string i; b ← get_string j; ok (bytes_eq a b)
identifier_eq guid i j = do a ← get_guid i; b ← get_guid j; ok (guid_eq a b)

-- NodeId::operator==
unfoldable pub node_id_eq : NodeId → NodeId → Outcome Bool
unfolding type_eq identifier_eq get_int get_string get_guid
node_id_eq a b =
    if not (a.ns_idx == b.ns_idx)
    then ok false
    else if not (type_eq a.type b.type)
    then ok false
    else identifier_eq a.type a.i b.i

-- The hash functions of the standard library: their values are the implementation's choice.
-- `hash_variant` mixes the index of the alternative with its hash.
pub record StdHash : Type 0 where
  pub hash_uint16 : ℕ → ℕ
  pub hash_int : ℤ → ℕ
  pub hash_string : Bytes → ℕ
  pub hash_variant : ℕ → ℕ → ℕ

-- std::hash<std::variant<int, std::string, Guid>>, which calls getHash(const Guid &)
unfoldable pub identifier_hash : StdHash → Identifier → ℕ
identifier_hash std (int_id z) = std.hash_variant 0 (std.hash_int z)
identifier_hash std (string_id s) = std.hash_variant 1 (std.hash_string s)
identifier_hash std (guid_id g) = std.hash_variant 2 (guid_hash g)

-- getHash(const NodeId &), over a 64-bit `size_t`
unfoldable pub get_hash : StdHash → NodeId → ℕ
unfolding identifier_hash
get_hash std id =
    let h1 = std.hash_uint16 id.ns_idx in
    let h2 = identifier_hash std id.i in bit_xor h1 ((h2 * 2) % 2 ^ 64)

-- UA_NodeId: the union with its tag. `other_kind` is a tag that names no member.
pub data UaIdentifier : Type 0 where
  ua_numeric : ℕ → UaIdentifier
  ua_string : Bytes → UaIdentifier
  ua_guid : Guid → UaIdentifier
  ua_byte_string : Bytes → UaIdentifier
  other_kind : ℕ → UaIdentifier

pub record UaNodeId : Type 0 where
  pub namespace_index : ℕ
  pub identifier : UaIdentifier

-- fromUaNodeId
unfoldable pub from_ua_node_id : UaNodeId → NodeId
from_ua_node_id id = elim id.identifier [
  | ua_numeric n ↦ numeric_node_id id.namespace_index (to_int n)
  | ua_string s ↦ string_node_id id.namespace_index s
  | ua_guid g ↦ guid_node_id id.namespace_index g
  | ua_byte_string s ↦ typed_node_id id.namespace_index s byte_string
  | other_kind k ↦ null_node_id
]

-- The switch of fromNodeId.
unfoldable pub to_ua_identifier : UaText → IdentifierType → Identifier → Outcome UaIdentifier
to_ua_identifier t numeric i = do z ← get_int i; ok (ua_numeric (to_u32 z))
to_ua_identifier t string i = do s ← get_string i; ok (ua_string (t.make_string s))
to_ua_identifier t guid i = do g ← get_guid i; ok (ua_guid g)
to_ua_identifier t byte_string i = do s ← get_string i; ok (ua_byte_string (t.make_byte_string s))

-- fromNodeId
unfoldable pub from_node_id : UaText → NodeId → Outcome UaNodeId
unfolding to_ua_identifier get_int get_string get_guid
from_node_id t id = do
  u ← to_ua_identifier t id.type id.i
  ok (record { namespace_index = id.ns_idx % 2 ^ 16; identifier = u })
