-- ===== src/Client/Laws.antt =====
-- Client::connect, resolveNamespaceUri and resolve (modernopc/src/client/Client.cpp).
use modern_opc.Base.{
  ℕ, zero, suc, ◌+◌, ◌^◌, ◌<◌, ◌≡◌, ◌≢◌, refl, ap, ◌∙◌, subst, Bool-cases, Bytes, text, bytes_eq,
  bytes_eq_iff, ok, List, [], ◌∷◌, ◌++◌, map, append-nil, inl, inr, ℤ, IsInt32, decimal_int, arith,
}
use modern_opc.Types.NodeId.{numeric_node_id, string_node_id}
use modern_opc.Variant.{string_value, array, string}
use modern_opc.Server.Status.{good}
use modern_opc.Server.Nodes.{Server}
use modern_opc.Server.Namespaces.Laws.{FirstAt}
use modern_opc.Client.Stoi.{stoi-decimal_int}
use modern_opc.Client.{
  UaClient, Client, connected, read_namespaces, find_uri, substr, connect, resolve_namespace_uri,
  resolve,
}

find_uri_hit :
    (uri ns : Bytes) (i : ℕ) (nss : List Bytes) → uri ≡ ns → find_uri uri i (ns ∷ nss) ≡ ok i
unfolding find_uri
find_uri_hit uri ns i nss e = rw ((bytes_eq_iff uri ns).1 e, find_uri) refl

find_uri_miss :
    (uri ns : Bytes) (i : ℕ) (nss : List Bytes)
    → uri ≢ ns
    → find_uri uri i (ns ∷ nss) ≡ find_uri uri (suc i) nss
unfolding find_uri
find_uri_miss uri ns i nss n = elim (Bool-cases (bytes_eq uri ns)) [
  | inl y ↦ absurd (n ((bytes_eq_iff uri ns).0 y))
  | inr h ↦ rw (h, find_uri) refl
]

find_uri-FirstAt :
    (uri : Bytes) (i n : ℕ) (names more : List Bytes)
    → FirstAt uri names n
    → find_uri uri i (names ++ more) ≡ ok (i + n)
find_uri-FirstAt uri i n [] more h = absurd h
find_uri-FirstAt uri i zero (ns ∷ names) more h =
    find_uri_hit uri ns i (names ++ more) h ∙ ap (λ k. ok k) (omega arith)
find_uri-FirstAt uri i (suc n) (ns ∷ names) more (h, k) =
    find_uri_miss uri ns i (names ++ more) h
    ∙ find_uri-FirstAt uri (suc i) n names more k
    ∙ ap (λ j. ok j) (omega arith)

read_namespaces-strings : (names : List Bytes) → read_namespaces (map string_value names) ≡ ok names
unfolding read_namespaces
read_namespaces-strings [] = refl
read_namespaces-strings (ns ∷ names) = rw (read_namespaces-strings names) refl

substr_2 : (c d : ℕ) (s : Bytes) → substr (c ∷ d ∷ s) 2 ≡ ok s
unfolding substr
substr_2 c d s = ground arith

module _ {C : Type 0} (U : UaClient C) where
  resolve_first :
      (uri : Bytes) (n : ℕ) (c : Client C)
      → FirstAt uri c.namespaces n
      → resolve_namespace_uri U uri c ≡ ok n
  unfolding resolve_namespace_uri
  resolve_first uri n c h =
      subst (λ k. find_uri uri 0 k ≡ ok (0 + n)) (append-nil c.namespaces)
        (find_uri-FirstAt uri 0 n c.namespaces [] h)
      ∙ ap (λ k. ok k) (omega arith)

  -- What `resolve` gives of an identifier's text is the node id that it was printed from, in the
  -- namespace at whose index the URI stands first, an index below 2^16: for `i=` before an int and for
  -- `s=` before any text.
  pub resolve_lem :
      (uri : Bytes) (n : ℕ) (z : ℤ) (s : Bytes) (c : Client C)
      → n < 2 ^ 16
      → IsInt32 z
      → FirstAt uri c.namespaces n
      → (resolve U (record { namespace_uri = uri; identifier = text "i=" ++ decimal_int z }) c
          ≡ ok (numeric_node_id n z))
        × (resolve U (record { namespace_uri = uri; identifier = text "s=" ++ s }) c
            ≡ ok (string_node_id n s))
  unfolding resolve
  resolve_lem uri n z s c lt h f = (
    rw (resolve_first uri n c f, substr_2 b'i' b'=' (decimal_int z), stoi-decimal_int z h)
        (ap (λ k. ok (numeric_node_id k z)) (omega arith)),
    rw (resolve_first uri n c f, substr_2 b's' b'=' s)
        (ap (λ k. ok (string_node_id k s)) (omega arith)),
  )

  -- What a call of connect leaves when open62541 connects and the server's array can be read.
  connect-eq :
      (c : Client C) (ua : C) (names : List Bytes)
      → U.connect c.ua c.uri ≡ (good, ua)
      → U.read_value_attribute ua U.server_namespace_array
        ≡ (good, array string (map string_value names))
      → connect U c
        ≡ (ok tt, record c { ua = ua; namespaces = c.namespaces ++ names; conn_state = connected })
  unfolding connect
  connect-eq c ua names e r =
      rw (e, r, read_namespaces-strings names, connect)
        (ap
          (λ p. (
            ok tt,
            record c { ua = p.1; namespaces = c.namespaces ++ names; conn_state = connected },
          ))
          e)

  -- The defect of connect: it appends to the namespaces that an earlier connection left. After a
  -- further connection, a URI is resolved to the index that it had then, whatever the server's
  -- array is now.
  pub connect_again_keeps_index :
      (c : Client C) (ua : C) (uri : Bytes) (n : ℕ) (names : List Bytes)
      → U.connect c.ua c.uri ≡ (good, ua)
      → U.read_value_attribute ua U.server_namespace_array
        ≡ (good, array string (map string_value names))
      → FirstAt uri c.namespaces n
      → resolve_namespace_uri U uri (connect U c).1 ≡ ok n
  unfolding resolve_namespace_uri
  connect_again_keeps_index c ua uri n names e r f =
      ap (λ k. find_uri uri 0 k.1.namespaces) (connect-eq c ua names e r)
      ∙ find_uri-FirstAt uri 0 n c.namespaces names f
      ∙ ap (λ k. ok k) (omega arith)
