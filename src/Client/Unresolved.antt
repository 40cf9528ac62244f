-- ===== src/Client/Unresolved.antt =====
-- The order of class UnresolvedNodeId (modernopc/include/modernopc/UnresolvedNodeId.h), by which a
-- std::map keeps them.
use modern_opc.Base.{
  ℕ, ◌≡◌, refl, sym, ap, ◌∙◌, ◌⊎◌, inl, inr, ◌<◌, Bool, true, false, not, Bool-cases, if◌then◌else◌,
  ltb, Bytes, bytes_eq, bytes_eq_iff, [], ◌∷◌, arith,
}
use modern_opc.Client.{UnresolvedNodeId}

-- operator< of std::string, which compares bytes
unfoldable pub bytes_less : Bytes → Bytes → Bool
bytes_less [] [] = false
bytes_less [] (b ∷ t) = true
bytes_less (a ∷ s) [] = false
bytes_less (a ∷ s) (b ∷ t) =
    let rest = bytes_less s t in if ltb a b then true else if ltb b a then false else rest

-- operator<(const UnresolvedNodeId &, const UnresolvedNodeId &)
unfoldable pub unresolved_less : UnresolvedNodeId → UnresolvedNodeId → Bool
unfolding bytes_less
unresolved_less a b =
    if not (bytes_eq a.namespace_uri b.namespace_uri)
    then bytes_less a.namespace_uri b.namespace_uri
    else bytes_less a.identifier b.identifier

bytes_less_irrefl : (s : Bytes) → bytes_less s s ≡ false
unfolding bytes_less
bytes_less_irrefl [] = refl
bytes_less_irrefl (a ∷ s) = ground (arith, bytes_less_irrefl s)

bytes_less_trans :
    (r s t : Bytes) → bytes_less r s ≡ true → bytes_less s t ≡ true → bytes_less r t ≡ true
unfolding bytes_less
bytes_less_trans [] [] t h k = cc
bytes_less_trans [] (b ∷ s) [] h k = cc k
bytes_less_trans [] (b ∷ s) (c ∷ t) h k = refl
bytes_less_trans (a ∷ r) [] t h k = cc h
bytes_less_trans (a ∷ r) (b ∷ s) [] h k = cc k
bytes_less_trans (a ∷ r) (b ∷ s) (c ∷ t) h k = ground (arith, bytes_less_trans r s t)

compare3 : (a b : ℕ) → (a < b) ⊎ ((a ≡ b) ⊎ (b < a))
compare3 a b = omega arith

bytes_less_total : (s t : Bytes) → (bytes_less s t ≡ true) ⊎ ((s ≡ t) ⊎ (bytes_less t s ≡ true))
unfolding bytes_less
bytes_less_total [] [] = inr (inl refl)
bytes_less_total [] (b ∷ t) = inl refl
bytes_less_total (a ∷ s) [] = inr (inr refl)
bytes_less_total (a ∷ s) (b ∷ t) = go (compare3 a b) (bytes_less_total s t)
  where
    go :
        (a < b) ⊎ ((a ≡ b) ⊎ (b < a))
        → (bytes_less s t ≡ true) ⊎ ((s ≡ t) ⊎ (bytes_less t s ≡ true))
        → (bytes_less (a ∷ s) (b ∷ t) ≡ true)
          ⊎ ((a ∷ s ≡ b ∷ t) ⊎ (bytes_less (b ∷ t) (a ∷ s) ≡ true))
    go (inl h) k = inl (ground arith)
    go (inr (inr h)) k = inr (inr (ground arith))
    go (inr (inl h)) (inl k) = inl (ground (arith, k))
    go (inr (inl h)) (inr (inl k)) = inr (inl (cc (h, k)))
    go (inr (inl h)) (inr (inr k)) = inr (inr (ground (arith, k)))

-- Two ids are either the same or one is before the other, and never both.
abbrev pub IsOrdered : UnresolvedNodeId → UnresolvedNodeId → Type 0
IsOrdered a b =
    ((unresolved_less a b ≡ true) × (unresolved_less b a ≡ false))
    ⊎ (((a ≡ b) × (unresolved_less a b ≡ false))
        ⊎ ((unresolved_less b a ≡ true) × (unresolved_less a b ≡ false)))

bytes_less_asym : (s t : Bytes) → bytes_less s t ≡ true → bytes_less t s ≡ false
bytes_less_asym s t h = elim (Bool-cases (bytes_less t s)) [
  | inl k ↦ cc (bytes_less_trans s t s h k, bytes_less_irrefl s)
  | inr k ↦ k
]

not-equal : (s t : Bytes) → bytes_less s t ≡ true → (bytes_eq s t ≡ false) × (bytes_eq t s ≡ false)
not-equal s t h = (
  elim (Bool-cases (bytes_eq s t)) [ inl k ↦ cc (apart ((bytes_eq_iff s t).0 k)) | inr k ↦ k ],
  elim (Bool-cases (bytes_eq t s)) [
    | inl k ↦ cc (apart (sym ((bytes_eq_iff t s).0 k)))
    | inr k ↦ k
  ],
)
  where
    apart : s ≡ t → true ≡ false
    apart e = sym h ∙ ap (bytes_less s) (sym e) ∙ bytes_less_irrefl s

-- By the namespace first, and by the identifier in one namespace.
less_by_uri :
    (a b : UnresolvedNodeId)
    → bytes_less a.namespace_uri b.namespace_uri ≡ true
    → (unresolved_less a b ≡ true) × (unresolved_less b a ≡ false)
unfolding unresolved_less
less_by_uri a b h =
    let (x, y) = not-equal a.namespace_uri b.namespace_uri h in
    (
      rw (x, unresolved_less) h,
      rw (y, unresolved_less) (bytes_less_asym a.namespace_uri b.namespace_uri h),
    )

less_by_identifier :
    (a b : UnresolvedNodeId)
    → a.namespace_uri ≡ b.namespace_uri
    → unresolved_less a b ≡ bytes_less a.identifier b.identifier
unfolding unresolved_less
less_by_identifier a b e =
    rw ((bytes_eq_iff a.namespace_uri b.namespace_uri).1 e, unresolved_less) refl

-- operator< orders the ids: of any two, one is before the other, or they are the same, and never both.
pub unresolved_less-IsOrdered : (a b : UnresolvedNodeId) → IsOrdered a b
unresolved_less-IsOrdered a b = elim (bytes_less_total a.namespace_uri b.namespace_uri) [
  | inl h ↦ inl (less_by_uri a b h)
  | inr (inr h) ↦ inr (inr (less_by_uri b a h))
  | inr (inl e) ↦ elim (bytes_less_total a.identifier b.identifier) [
    | inl h ↦ inl (
      less_by_identifier a b e ∙ h,
      less_by_identifier b a (sym e) ∙ bytes_less_asym a.identifier b.identifier h,
    )
    | inr (inr h) ↦ inr (
        inr (
          less_by_identifier b a (sym e) ∙ h,
          less_by_identifier a b e ∙ bytes_less_asym b.identifier a.identifier h,
        ))
    | inr (inl f) ↦ inr (
        inl (
          cc (e, f),
          less_by_identifier a b e
              ∙ ap (λ x. bytes_less x b.identifier) f
              ∙ bytes_less_irrefl b.identifier,
        ))
  ]
]

less_cases :
    (a b : UnresolvedNodeId)
    → unresolved_less a b ≡ true
    → (bytes_less a.namespace_uri b.namespace_uri ≡ true)
      ⊎ ((a.namespace_uri ≡ b.namespace_uri) × (bytes_less a.identifier b.identifier ≡ true))
less_cases a b h = elim (bytes_less_total a.namespace_uri b.namespace_uri) [
  | inl x ↦ inl x
  | inr (inl e) ↦ inr (e, sym (less_by_identifier a b e) ∙ h)
  | inr (inr x) ↦ cc (h, (less_by_uri b a x).1)
]

-- operator< is transitive.
pub unresolved_less_trans :
    (a b c : UnresolvedNodeId)
    → unresolved_less a b ≡ true
    → unresolved_less b c ≡ true
    → unresolved_less a c ≡ true
unresolved_less_trans a b c h k = go (less_cases a b h) (less_cases b c k)
  where
    go :
        (bytes_less a.namespace_uri b.namespace_uri ≡ true)
          ⊎ ((a.namespace_uri ≡ b.namespace_uri) × (bytes_less a.identifier b.identifier ≡ true))
        → (bytes_less b.namespace_uri c.namespace_uri ≡ true)
          ⊎ ((b.namespace_uri ≡ c.namespace_uri) × (bytes_less b.identifier c.identifier ≡ true))
        → unresolved_less a c ≡ true
    go (inl x) (inl y) =
        (less_by_uri a c (bytes_less_trans a.namespace_uri b.namespace_uri c.namespace_uri x y)).0
    go (inl x) (inr y) = (less_by_uri a c (sym (ap (bytes_less a.namespace_uri) y.0) ∙ x)).0
    go (inr x) (inl y) = (less_by_uri a c (ap (λ n. bytes_less n c.namespace_uri) x.0 ∙ y)).0
    go (inr x) (inr y) =
        less_by_identifier a c (x.0 ∙ y.0)
        ∙ bytes_less_trans a.identifier b.identifier c.identifier x.1 y.1
