-- ===== src/Types/NodeId/Conversion.antt =====
-- fromNodeId and fromUaNodeId (modernopc/src/types/NodeId.cpp), one after the other.
use modern_opc.Base.{
  ◌≢◌, ◌^◌, ◌<◌, ◌≡◌, refl, ap, ℕ, zero, Bytes, ◌++◌, [], ◌∷◌, c_string, c_string_id, IsNulFree,
  suc, arith, ok, ◌>>=◌, to_int-to_u32, to_u32-to_int,
}
use modern_opc.Types.UaText.{UaText, ReadsCString}
use modern_opc.Types.NodeId.{
  IdentifierType, numeric, string, guid, byte_string, Identifier, int_id, string_id, guid_id,
  NodeId, Holds, IsNodeId, UaIdentifier, ua_numeric, ua_string, ua_guid, ua_byte_string, other_kind,
  UaNodeId, from_ua_node_id, from_node_id, typed_node_id,
}

-- No text of the identifier has a NUL byte in it.
abbrev pub HasNoNul : Identifier → Type 0
HasNoNul (string_id s) = IsNulFree s
HasNoNul _ = Unit {0}

-- fromUaNodeId undoes fromNodeId: a well-formed NodeId without NUL bytes is converted with no
-- exception, and the result is converted back to the same NodeId.
pub from_ua_node_id-from_node_id :
    (t : UaText) (id : NodeId)
    → ReadsCString t
    → IsNodeId id
    → HasNoNul id.i
    → (from_node_id t id >>= λ u. ok (from_ua_node_id u)) ≡ ok id
unfolding from_node_id from_ua_node_id
from_ua_node_id-from_node_id t id r v n = go id.type id.i v.holds n
  where
    go :
        (k : IdentifierType) (i : Identifier)
        → Holds k i
        → HasNoNul i
        → (from_node_id t (record id { type = k; i = i }) >>= λ u. ok (from_ua_node_id u))
          ≡ ok (record id { type = k; i = i })
    go numeric (int_id z) h n = ground (arith, v.ns_range, to_int-to_u32 z h)
    go string (string_id s) h n = ground (arith, v.ns_range, r.make_string_lem s, c_string_id s n)
    go byte_string (string_id s) h n =
        ground (arith, v.ns_range, r.make_byte_string_lem s, c_string_id s n)
    go guid (guid_id g) h n = ground (arith, v.ns_range)
    go _ _ h n = ground arith

-- The members of the union in the ranges of their C types, texts without a NUL byte, and a tag
-- that names a member.
abbrev pub IsUaIdentifier : UaIdentifier → Type 0
IsUaIdentifier (ua_numeric n) = n < 2 ^ 32
IsUaIdentifier (ua_string s) = IsNulFree s
IsUaIdentifier (ua_guid g) = Unit {0}
IsUaIdentifier (ua_byte_string s) = IsNulFree s
IsUaIdentifier (other_kind k) = ⊥

-- fromNodeId undoes fromUaNodeId, of a UA_NodeId whose namespace index is below 2^16 and whose
-- identifier is a number below 2^32, a Guid, or a string or ByteString without NUL bytes. Of any other
-- kind of identifier it is not stated.
pub from_node_id-from_ua_node_id :
    (t : UaText) (u : UaNodeId)
    → ReadsCString t
    → u.namespace_index < 2 ^ 16
    → IsUaIdentifier u.identifier
    → from_node_id t (from_ua_node_id u) ≡ ok u
unfolding from_node_id from_ua_node_id
from_node_id-from_ua_node_id t u r ns h = go u.identifier h
  where
    go :
        (i : UaIdentifier)
        → IsUaIdentifier i
        → from_node_id t (from_ua_node_id (record u { identifier = i }))
          ≡ ok (record u { identifier = i })
    go (ua_numeric n) h = ground (arith, ns, to_u32-to_int n h)
    go (ua_string s) h = ground (arith, ns, r.make_string_lem s, c_string_id s h)
    go (ua_guid g) h = ground (arith, ns)
    go (ua_byte_string s) h = ground (arith, ns, r.make_byte_string_lem s, c_string_id s h)
    go (other_kind k) h = absurd h

c_string_cut : (s r : Bytes) → c_string (s ++ (0 ∷ r)) ≡ c_string s
unfolding c_string
c_string_cut [] r = refl
c_string_cut (zero ∷ s) r = refl
c_string_cut (suc c ∷ s) r = ap (◌∷◌ (suc c)) (c_string_cut s r)

longer-ne : (s r : Bytes) (c : ℕ) → s ++ (c ∷ r) ≢ s
longer-ne [] r c e = cc
longer-ne (x ∷ s) r c e = longer-ne s r c (cc)

-- The defect of fromNodeId on texts that hold a NUL byte, as a ByteString may: the bytes behind
-- it are dropped, so that two different node ids are sent to the server as one.
pub from_node_id_conflates :
    (t : UaText) (ns : ℕ) (s r : Bytes) (k : IdentifierType)
    → ReadsCString t
    → (from_node_id t (typed_node_id ns (s ++ (0 ∷ r)) k) ≡ from_node_id t (typed_node_id ns s k))
      × (typed_node_id ns (s ++ (0 ∷ r)) k ≢ typed_node_id ns s k)
unfolding from_node_id
from_node_id_conflates t ns s r k law = (go k, differ)
  where
    go :
        (k : IdentifierType)
        → from_node_id t (typed_node_id ns (s ++ (0 ∷ r)) k) ≡ from_node_id t (typed_node_id ns s k)
    go numeric = refl
    go string = simp (law.make_string_lem, c_string_cut)
    go guid = refl
    go byte_string = simp (law.make_byte_string_lem, c_string_cut)

    held : NodeId → Bytes
    held id = elim id.i [ int_id z ↦ [] | string_id b ↦ b | guid_id g ↦ [] ]

    differ : typed_node_id ns (s ++ (0 ∷ r)) k ≢ typed_node_id ns s k
    differ e = longer-ne s r 0 (ap held e)

-- A well-formed node id is converted without an exception.
pub from_node_id-total :
    (t : UaText) (id : NodeId) → IsNodeId id → (u : UaNodeId) × (from_node_id t id ≡ ok u)
unfolding from_node_id
from_node_id-total t id v = go id.type id.i v.holds
  where
    go :
        (k : IdentifierType) (i : Identifier)
        → Holds k i
        → (u : UaNodeId) × (from_node_id t (record id { type = k; i = i }) ≡ ok u)
    go numeric (int_id z) h = (_, refl)
    go string (string_id s) h = (_, refl)
    go byte_string (string_id s) h = (_, refl)
    go guid (guid_id g) h = (_, refl)
    go _ _ h = ground arith
