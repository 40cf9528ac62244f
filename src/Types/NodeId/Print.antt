-- ===== src/Types/NodeId/Print.antt =====
-- operator<< of a NodeId (modernopc/src/types/NodeId.cpp).
use modern_opc.Base.{
  ℕ, ◌≡◌, refl, ap, Bytes, text, [], ◌∷◌, ◌++◌, List, decimal, decimal_int, scan, Ends,
  scan-decimal, atoi, atoi-decimal_int, ℤ, IsInt32, Outcome, ok, ◌>>=◌, arith, subst,
}
use modern_opc.Types.Guid.{Guid}
use modern_opc.Types.NodeId.{
  int_id, string_id, guid_id, Holds, IsNodeId, IdentifierType, numeric, string, guid, byte_string,
  Identifier, NodeId, get_int, get_string, get_guid,
}

-- Numbers with a dash before each.
dashed : List ℕ → Bytes
dashed [] = []
dashed (n ∷ ns) = b'-' ∷ (decimal n ++ dashed ns)

-- The fields of a Guid in decimal, joined by dashes.
unfoldable pub print_guid : Guid → Bytes
unfolding dashed
print_guid g = decimal g.data1 ++ dashed (g.data2 ∷ g.data3 ∷ g.data4)

-- The switch of operator<<.
unfoldable pub print_identifier : IdentifierType → Identifier → Outcome Bytes
unfolding print_guid
print_identifier numeric i = do z ← get_int i; ok (text ";i=" ++ decimal_int z)
print_identifier byte_string i = do s ← get_string i; ok (text ";b=" ++ s)
print_identifier string i = do s ← get_string i; ok (text ";s=" ++ s)
print_identifier guid i = do g ← get_guid i; ok (text ";g=" ++ print_guid g)

-- operator<<(std::ostream &, const NodeId &)
unfoldable pub print_node_id : NodeId → Outcome Bytes
unfolding print_identifier get_int get_string get_guid
print_node_id id = do
  rest ← print_identifier id.type id.i
  ok (text "ns=" ++ (decimal id.ns_idx ++ rest))

append_cancel : (p s t : Bytes) → p ++ s ≡ p ++ t → s ≡ t
append_cancel [] s t e = e
append_cancel (c ∷ p) s t e = append_cancel p s t (cc)

decimal-split :
    (m n : ℕ) (s t : Bytes) → Ends s → Ends t → decimal m ++ s ≡ decimal n ++ t → (m ≡ n) × (s ≡ t)
decimal-split m n s t hs ht e =
    let p : m ≡ n = cc (scan-decimal m s hs, scan-decimal n t ht, ap (scan 0) e) in
    (p, append_cancel (decimal n) s t (subst (λ k. decimal k ++ s ≡ decimal n ++ t) p e))

dashed-Ends : (ns : List ℕ) → Ends (dashed ns)
unfolding dashed
dashed-Ends [] = tt
dashed-Ends (n ∷ ns) = refl

dashed-injective : (ms ns : List ℕ) → dashed ms ≡ dashed ns → ms ≡ ns
unfolding dashed
dashed-injective [] [] e = refl
dashed-injective [] (n ∷ ns) e = cc
dashed-injective (m ∷ ms) [] e = cc
dashed-injective (m ∷ ms) (n ∷ ns) e =
    let (p, q) = decimal-split m n (dashed ms) (dashed ns) (dashed-Ends ms) (dashed-Ends ns) (cc) in
    cc (p, dashed-injective ms ns q)

print_guid-injective : (a b : Guid) → print_guid a ≡ print_guid b → a ≡ b
unfolding print_guid
print_guid-injective a b e =
    let (p, q) =
      decimal-split a.data1 b.data1 _ _ (dashed-Ends (a.data2 ∷ a.data3 ∷ a.data4))
        (dashed-Ends (b.data2 ∷ b.data3 ∷ b.data4)) e in
    let r = dashed-injective (a.data2 ∷ a.data3 ∷ a.data4) (b.data2 ∷ b.data3 ∷ b.data4) q in
    ground arith

decimal_int-injective : (a b : ℤ) → IsInt32 a → IsInt32 b → decimal_int a ≡ decimal_int b → a ≡ b
decimal_int-injective a b ha hb e =
    cc (atoi-decimal_int a [] ha tt, atoi-decimal_int b [] hb tt, ap (λ s. atoi (s ++ [])) e)

print_identifier-injective :
    (s t : IdentifierType) (i j : Identifier)
    → Holds s i
    → Holds t j
    → (a : Bytes) → print_identifier s i ≡ ok a
    → print_identifier t j ≡ ok a
    → (s ≡ t) × (i ≡ j)
unfolding print_identifier get_int get_string get_guid
print_identifier-injective numeric numeric (int_id x) (int_id y) hi hj a p q =
    (refl, ap int_id (decimal_int-injective x y hi hj (cc)))
print_identifier-injective guid guid (guid_id x) (guid_id y) hi hj a p q =
    (refl, ap guid_id (print_guid-injective x y (cc)))
print_identifier-injective string string (string_id x) (string_id y) hi hj a p q = (refl, cc)
print_identifier-injective byte_string byte_string (string_id x) (string_id y) hi hj a p q =
    (refl, cc)
print_identifier-injective _ _ _ _ hi hj a p q = ground arith

-- The text of an identifier, which begins with a semicolon.
print_identifier-total :
    (s : IdentifierType) (i : Identifier)
    → Holds s i
    → (a : Bytes) × (print_identifier s i ≡ ok (b';' ∷ a))
unfolding print_identifier get_int get_string get_guid
print_identifier-total numeric (int_id x) h = (text "i=" ++ decimal_int x, refl)
print_identifier-total guid (guid_id x) h = (text "g=" ++ print_guid x, refl)
print_identifier-total string (string_id x) h = (text "s=" ++ x, refl)
print_identifier-total byte_string (string_id x) h = (text "b=" ++ x, refl)
print_identifier-total _ _ h = ground arith

-- Every well-formed node id is printed, and two that are printed alike are the same.
pub print_node_id-injective :
    (a b : NodeId)
    → IsNodeId a
    → IsNodeId b
    → (s : Bytes) × (print_node_id a ≡ ok s) × (print_node_id b ≡ ok s → a ≡ b)
unfolding print_node_id
print_node_id-injective a b va vb =
    let (x, p) = print_identifier-total a.type a.i va.holds in
    let (y, q) = print_identifier-total b.type b.i vb.holds in
    (
      text "ns=" ++ (decimal a.ns_idx ++ (b';' ∷ x)),
      rw (p, print_node_id),
      rw (q, print_node_id) (λ h. same x y p q h),
    )
  where
    same :
        (x y : Bytes)
        → print_identifier a.type a.i ≡ ok (b';' ∷ x)
        → print_identifier b.type b.i ≡ ok (b';' ∷ y)
        → ok (text "ns=" ++ (decimal b.ns_idx ++ (b';' ∷ y)))
          ≡ ok (text "ns=" ++ (decimal a.ns_idx ++ (b';' ∷ x)))
        → a ≡ b
    same x y p q h =
        let (n, r) = decimal-split b.ns_idx a.ns_idx (b';' ∷ y) (b';' ∷ x) refl refl (cc) in
        let (t, i) =
          print_identifier-injective a.type b.type a.i b.i va.holds vb.holds (b';' ∷ x) p (cc) in
        ground arith
