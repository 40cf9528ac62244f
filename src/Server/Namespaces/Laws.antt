-- ===== src/Server/Namespaces/Laws.antt =====
-- Server::getNamespaceIndex (modernopc/src/Server.cpp) on a namespace array.
use modern_opc.Base.{
  ℕ, zero, suc, ◌+◌, ◌^◌, ◌<◌, ◌≡◌, ◌≢◌, refl, ap, ◌∙◌, true, false, Bool-cases, Bytes, bytes_eq,
  bytes_eq_iff, Outcome, ok, List, [], ◌∷◌, map, length, All, ◌⊎◌, inl, inr, arith,
}
use modern_opc.Types.Names.Conversion.{from_ua_string_id}
use modern_opc.Variant.{Value, string_value, array, string}
use modern_opc.Variant.Access.{read_string}
use modern_opc.Server.Status.{good}
use modern_opc.Server.Ua.{UaServer}
use modern_opc.Server.Nodes.{Server}
use modern_opc.Server.Namespaces.{index_of_uri, get_namespace_index}

-- The list has the URI at that index, and at none before.
abbrev pub FirstAt : Bytes → List Bytes → ℕ → Type 0
FirstAt uri [] n = ⊥
FirstAt uri (ns ∷ nss) zero = uri ≡ ns
FirstAt uri (ns ∷ nss) (suc n) = (uri ≢ ns) × FirstAt uri nss n

abbrev pub Unknown : Bytes → List Bytes → Type 0
Unknown uri = All (λ ns. uri ≢ ns)

-- What a search that starts to count at `i` may answer.
abbrev Answer : Bytes → List Bytes → ℕ → Outcome ℕ → Type 0
Answer uri names i r =
    ((n : ℕ) × FirstAt uri names n × (r ≡ ok (i + n))) ⊎ (Unknown uri names × (r ≡ ok 0))

pub bytes_ne : (s t : Bytes) → bytes_eq s t ≡ false → s ≢ t
bytes_ne s t h e = cc (h, (bytes_eq_iff s t).1 e)

index_hit :
    (uri ns : Bytes) (i : ℕ) (vs : List Value)
    → bytes_eq uri ns ≡ true
    → index_of_uri uri i (string_value ns ∷ vs) ≡ ok i
unfolding index_of_uri read_string
index_hit uri ns i vs h = rw (from_ua_string_id ns, h, index_of_uri) refl

index_miss :
    (uri ns : Bytes) (i : ℕ) (vs : List Value)
    → bytes_eq uri ns ≡ false
    → suc i < 2 ^ 16
    → index_of_uri uri i (string_value ns ∷ vs) ≡ index_of_uri uri (suc i) vs
unfolding index_of_uri read_string
index_miss uri ns i vs h lt =
    rw (from_ua_string_id ns, h, index_of_uri) (ap (λ k. index_of_uri uri k vs) (omega arith))

index_of_uri-Answer :
    (uri : Bytes) (i : ℕ) (names : List Bytes)
    → i + length names < 2 ^ 16
    → Answer uri names i (index_of_uri uri i (map string_value names))
index_of_uri-Answer uri i [] h = inr (tt, unfold index_of_uri in refl)
index_of_uri-Answer uri i (ns ∷ names) h = elim (Bool-cases (bytes_eq uri ns)) [
  | inl y ↦ inl (
    0,
    (bytes_eq_iff uri ns).0 y,
    index_hit uri ns i (map string_value names) y ∙ ap (λ k. ok k) (omega arith),
  )
  | inr n ↦
      let miss = index_miss uri ns i (map string_value names) n (omega arith) in
      elim (index_of_uri-Answer uri (suc i) names (omega arith)) [
        | inl (k, f, e) ↦
            inl (suc k, (bytes_ne uri ns n, f), miss ∙ e ∙ ap (λ j. ok j) (omega arith))
        | inr (f, e) ↦ inr ((bytes_ne uri ns n, f), miss ∙ e)
      ]
]

-- When the namespace array can be read and has fewer than 65,536 entries, getNamespaceIndex answers
-- the index of the first entry that is the URI, or 0 when none is.
pub get_namespace_index_lem :
    {S : Type 0} (U : UaServer S) (uri : Bytes) (names : List Bytes) (s : Server S)
    → U.read_value s.ua U.names.server_namespace_array
      ≡ (good, array string (map string_value names))
    → length names < 2 ^ 16
    → ((n : ℕ) × FirstAt uri names n × (get_namespace_index U uri s ≡ ok n))
      ⊎ (Unknown uri names × (get_namespace_index U uri s ≡ ok 0))
unfolding get_namespace_index
get_namespace_index_lem U uri names s e h =
    rw e (elim (index_of_uri-Answer uri 0 names (omega arith)) [
      | inl (n, f, p) ↦ inl (n, f, p ∙ ap (λ k. ok k) (omega arith))
      | inr x ↦ inr x
    ])
