-- ===== src/Client/Nodesets.antt =====
-- Client::loadNodeset (modernopc/src/client/Client.cpp), createVariantFromJson
-- (modernopc/src/client/ClientJson.cpp) and fromJson (modernopc/src/Variant_fromJson.cpp). The loader of
-- nodesets and the JSON decoder are parameters.
pub mod Laws
use modern_opc.Base.{
  ℕ, ◌%◌, ◌^◌, Bool, true, false, if◌then◌else◌, Bytes, ℤ, to_u32, Outcome, ok, throws, faults,
  null_dereference, ◌>>=◌, List, [], ◌∷◌, map, Option, none, some,
}
use modern_opc.Types.NodeId.{NodeId, UaNodeId, from_node_id}
use modern_opc.Variant.{Value, custom, UaVariant, empty, scalar}
use modern_opc.Server.Status.{UaStatusCode, is_good}
use modern_opc.Client.{UaDataType, UaClient, Client, Called, find_custom_data_type}

-- NodesetLoader_loadFile into a new server: whether it succeeded, and the customDataTypes of that
-- server afterwards, array by array. UA_decodeJson: the status, and the value. `set_custom_data_types`
-- is the assignment to the field of the client's configuration.
pub record UaLoader (C : Type 0) : Type 0 where
  pub load_file : Bytes → Bool × List (List UaDataType)
  pub decode_json : Bytes → UaDataType → UaStatusCode × Value
  pub set_custom_data_types : C → List (List UaDataType) → C

-- The body of the loop of loadNodeset. The index is an int, and the field a UA_UInt16.
unfoldable pub set_namespace : ℤ → UaDataType → UaDataType
set_namespace ns t = record t {
  binary_encoding_id = record t.binary_encoding_id { namespace_index = to_u32 ns % 2 ^ 16 };
  type_id = record t.type_id { namespace_index = to_u32 ns % 2 ^ 16 };
}

-- fromJson. The object that it makes owns what it holds. A type is known by its address.
unfoldable pub from_json : {C : Type 0} → UaLoader C → Bytes → UaDataType → UaVariant
from_json L s t =
    let (status, decoded) = L.decode_json s t in
    if is_good status then scalar (custom t.address) decoded else empty

module _ {C : Type 0} (U : UaClient C) (L : UaLoader C) where
  -- Client::loadNodeset
  unfoldable pub load_nodeset : Bytes → ℤ → Client C → Called C Bool
  unfolding set_namespace
  load_nodeset path ns c =
      let (loaded, arrays) = L.load_file path in
      if loaded
      then elim arrays [
        | [] ↦ (faults null_dereference, record c { ua = L.set_custom_data_types c.ua [] })
        | first ∷ others ↦ (
          ok true,
          record c { ua = L.set_custom_data_types c.ua (map (set_namespace ns) first ∷ others) },
        )
      ]
      else (ok false, c)

  -- Client::createVariantFromJson
  unfoldable pub create_variant_from_json : Bytes → NodeId → Client C → Outcome UaVariant
  unfolding from_json find_custom_data_type
  create_variant_from_json s data_type c = do
    id ← from_node_id U.text data_type
    elim (find_custom_data_type U id c) [ none ↦ ok empty | some t ↦ ok (from_json L s t) ]
