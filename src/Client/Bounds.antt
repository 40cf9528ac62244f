-- ===== src/Client/Bounds.antt =====
-- The node ids that class Client makes: resolve and browse (modernopc/src/client/Client.cpp).
use modern_opc.Types.Guid.{IsGuid}
use modern_opc.Base.{
  ℕ, suc, ◌<◌, ◌^◌, Bool, true, false, if◌then◌else◌, leb, ◌==◌, Bytes, IsInt32, to_int-IsInt32,
  Concludes, Concludes-bind, bytes_eq, drop, out_of_range, Outcome, ok, throws, [], ◌∷◌, List, map,
  All, All-append, arith, length,
}
use modern_opc.Types.NodeId.{
  NodeId, IsNodeId, UaNodeId, UaIdentifier, ua_numeric, ua_string, ua_guid, ua_byte_string,
  other_kind, from_ua_node_id,
}
use modern_opc.Types.NodeId.Conversion.{from_node_id-total}
use modern_opc.Server.Status.{is_good}
use modern_opc.Client.{
  UaClient, UaReference, Client, UnresolvedNodeId, BrowseResult, find_uri, resolve_namespace_uri,
  resolve, substr, first_char, browse, browse_result, concat,
}
use modern_opc.Client.Stoi.{stoi, stoi-Concludes}

abbrev Any {ℓ} : {A : Type ℓ} → A → Type 0
Any a = Unit {0}

Concludes-if {ℓ} :
    {A : Type ℓ} (P : A → Type 0) (b : Bool) (x y : Outcome A)
    → Concludes P x
    → Concludes P y
    → Concludes P (if b then x else y)
Concludes-if P true x y h k = h
Concludes-if P false x y h k = k

find_uri-Concludes : (uri : Bytes) (n : ℕ) (uris : List Bytes) → Concludes Any (find_uri uri n uris)
unfolding find_uri
find_uri-Concludes uri n [] = tt
find_uri-Concludes uri n (u ∷ us) =
    Concludes-if Any (bytes_eq uri u) (ok n) (find_uri uri (suc n) us) tt
      (find_uri-Concludes uri (suc n) us)

substr-Concludes : (s : Bytes) (n : ℕ) → Concludes Any (substr s n)
unfolding substr
substr-Concludes s n =
    Concludes-if Any (leb n (length s)) (ok (drop n s)) (throws out_of_range) tt tt

abbrev InRange : UaIdentifier → Type 0
InRange (ua_guid g) = IsGuid g
InRange _ = Unit {0}

-- A node id of open62541 in the ranges of its C types.
abbrev pub IsInRange : UaNodeId → Type 0
IsInRange u = (u.namespace_index < 2 ^ 16) × InRange u.identifier

from_ua_node_id-IsNodeId : (u : UaNodeId) → IsInRange u → IsNodeId (from_ua_node_id u)
unfolding from_ua_node_id
from_ua_node_id-IsNodeId u (ns, h) = go u.identifier h
  where
    go : (i : UaIdentifier) → InRange i → IsNodeId (from_ua_node_id (record u { identifier = i }))
    go (ua_numeric n) h = record { ns_range = ns; holds = to_int-IsInt32 n }
    go (ua_string s) h = record { ns_range = ns; holds = tt }
    go (ua_guid g) h = record { ns_range = ns; holds = h }
    go (ua_byte_string s) h = record { ns_range = ns; holds = tt }
    go (other_kind k) h = record { ns_range = omega arith; holds = omega arith }

abbrev pub HasIds : List BrowseResult → Type 0
HasIds = All (λ r. IsNodeId r.id)

results-HasIds :
    (rs : List UaReference) → All (λ r. IsInRange r.node_id) rs → HasIds (map browse_result rs)
unfolding browse_result
results-HasIds [] h = tt
results-HasIds (r ∷ rs) h = (from_ua_node_id-IsNodeId r.node_id h.0, results-HasIds rs h.1)

All-IsInRange :
    (rss : List (List UaReference))
    → All (All (λ r. IsInRange r.node_id)) rss
    → All (λ r. IsInRange r.node_id) (concat rss)
All-IsInRange [] h = tt
All-IsInRange (rs ∷ rss) h = All-append _ rs (concat rss) h.0 (All-IsInRange rss h.1)

module _ {C : Type 0} (U : UaClient C) where
  -- Whatever text it is given, resolve does not fault, and a node id that it gives is well formed.
  resolve-Concludes : (id : UnresolvedNodeId) (c : Client C) → Concludes IsNodeId (resolve U id c)
  unfolding resolve resolve_namespace_uri
  resolve-Concludes id c =
      Concludes-bind Any IsNodeId (find_uri id.namespace_uri 0 c.namespaces) _
        (find_uri-Concludes id.namespace_uri 0 c.namespaces)
        (λ n h.
          Concludes-if IsNodeId (first_char id.identifier == b'i') _ _
            (Concludes-bind Any IsNodeId (substr id.identifier 2) _
              (substr-Concludes id.identifier 2)
              (λ s k.
                Concludes-bind IsInt32 IsNodeId (stoi s) _ (stoi-Concludes s)
                  (λ z r. record { ns_range = omega arith; holds = r })))
            (Concludes-if IsNodeId (first_char id.identifier == b's') _ _
              (Concludes-bind Any IsNodeId (substr id.identifier 2) _
                (substr-Concludes id.identifier 2)
                (λ s k. record { ns_range = omega arith; holds = tt }))
              tt))

  -- The node ids that a client makes are well formed: those that resolve gives, whatever the text; and
  -- those that browse gives from a well-formed id, when the references of open62541 are in the ranges
  -- of their types. Neither call faults, and no id is without the value that its type names.
  pub client_ids-Concludes :
      (id : UnresolvedNodeId) (from : NodeId) (c : Client C)
      → IsNodeId from
      → ((u : UaNodeId)
          → All
              (All (λ r. IsInRange r.node_id))
              (U.browse c.ua u U.hierarchical_references).results)
      → Concludes IsNodeId (resolve U id c) × Concludes HasIds (browse U from c)
  unfolding browse
  client_ids-Concludes id from c v ranges =
      let (u, e) = from_node_id-total U.text from v in
      (
        resolve-Concludes id c,
        rw (e, browse)
            (Concludes-if HasIds
              (is_good (U.browse c.ua u U.hierarchical_references).service_result) _ _
              (results-HasIds _ (All-IsInRange _ (ranges u))) tt),
      )
