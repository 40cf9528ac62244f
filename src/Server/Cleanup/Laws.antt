-- ===== src/Server/Cleanup/Laws.antt =====
-- The loops of cleanupCustomTypes over types and arrays (modernopc/src/Server.cpp).
use modern_opc.Base.{
  ℕ, zero, suc, ◌≡◌, refl, ◌∙◌, ◌≤◌, false, none, some, List, [], ◌∷◌, ◌++◌, map, drop, length, ok,
  arith, All, All-append_left, All-append_right,
}
use modern_opc.Server.Nodes.{Server}
use modern_opc.Server.Running.{stop}
use modern_opc.Server.Cleanup.{
  UaEnd, destroy_server, DataType, types_block, Heap, load, types_in, array_in, element_at,
  free_types, cleanup_array, cleanup_custom_types, Pointer,
}
use modern_opc.Server.Cleanup.Footprint.{
  mem, Distinct, Distinct-append, mem-append_false, Apart, Apart-sym, mem_head, mem-append_left,
  mem-append_right, Frees, Frees-trans, Frees-outside, AllLive, AllLive-Frees, TypeShape,
  ArrayShape, block_of, blocks_of_type, blocks_of_types, blocks_of_array, blocks_of_chain,
  MembersAt, TypesAt, head_of, ChainAt, AllMembersAt-Frees, TypesAt-Frees,
}
use modern_opc.Server.Cleanup.Freed.{free-Frees, free_type-Frees, get_elem?-drop}

drop-suc :
    {A : Type 0} (xs : List A) (i : ℕ) (x : A) (rest : List A)
    → drop i xs ≡ x ∷ rest
    → drop (suc i) xs ≡ rest
drop-suc [] zero x rest h = cc h
drop-suc [] (suc i) x rest h = cc h
drop-suc (y ∷ ys) zero x rest h = cc h
drop-suc (y ∷ ys) (suc i) x rest h = drop-suc ys i x rest h

-- The loop over the types, from the `i`-th: it frees the blocks of those that are left.
free_types-Frees :
    (ds : List TypeShape) (t i : ℕ) (types : List DataType) (m : Heap)
    → m t ≡ some (types_block types)
    → drop i types ≡ map TypeShape.type ds
    → All (λ d. MembersAt m d.type.members d) ds
    → AllLive m (blocks_of_types ds)
    → Distinct (blocks_of_types ds)
    → mem t (blocks_of_types ds) ≡ false
    → (m' : Heap) × (free_types (length ds) (some t) i m ≡ ok m') × Frees (blocks_of_types ds) m m'
unfolding free_types load types_in element_at
free_types-Frees [] t i types m at_t left at live distinct out = (m, refl, λ a. refl)
free_types-Frees (d ∷ ds) t i types m at_t left at live distinct out =
    let xs = blocks_of_type d in
    let ys = blocks_of_types ds in
    let (dx, dy, apart) = Distinct-append xs ys distinct in
    let (ox, oy) = mem-append_false t xs ys out in
    let (m1, e1, f1) = free_type-Frees d m at.0 (All-append_left _ xs ys live) dx in
    let (m2, e2, f2) =
      free_types-Frees ds t (suc i) types m1 (Frees-outside xs m m1 t f1 ox ∙ at_t)
        (drop-suc types i d.type (map TypeShape.type ds) left)
        (AllMembersAt-Frees xs ds m m1 f1 apart at.1)
        (AllLive-Frees xs ys m m1 f1 apart (All-append_right _ xs ys live)) dy oy in
    (
      m2,
      rw
          (
            at_t,
            get_elem?-drop types i d.type (map TypeShape.type ds) left,
            e1,
            free_types,
            load,
            types_in,
            element_at,
          )
          e2,
      Frees-trans xs ys m m1 m2 f1 f2,
    )

-- The types of an array, if it has any.
free_types_of_array-Frees :
    (p : Pointer) (ds : List TypeShape) (m : Heap)
    → TypesAt m p ds
    → All (λ d. MembersAt m d.type.members d) ds
    → AllLive m (blocks_of_types ds)
    → Distinct (blocks_of_types ds)
    → Apart (blocks_of_types ds) (block_of p)
    → (m' : Heap) × ((elim p [ none ↦ ok m | some t ↦ free_types (length ds) (some t) 0 m ])
        ≡ ok m')
      × Frees (blocks_of_types ds) m m'
free_types_of_array-Frees none ds m at members live distinct apart = (m, refl, λ a. rw at refl)
free_types_of_array-Frees (some t) ds m at members live distinct apart =
    free_types-Frees ds t 0 (map TypeShape.type ds) m at refl members live distinct
      (Apart-sym (blocks_of_types ds) (t ∷ []) t apart (mem_head t []))

-- The body of the loop over the arrays frees exactly the blocks of the array.
cleanup_array-Frees :
    (s : ArrayShape) (ss : List ArrayShape) (m : Heap)
    → ChainAt m (s ∷ ss)
    → AllLive m (blocks_of_array s)
    → Distinct (blocks_of_array s)
    → (m' : Heap) × (cleanup_array s.address m ≡ ok (head_of ss, m'))
      × Frees (blocks_of_array s) m m'
unfolding cleanup_array load array_in
cleanup_array-Frees s ss m (at_s, at_types, at_members, more) live distinct =
    let xs = blocks_of_types s.shapes in
    let ts = block_of s.types in
    let as1 = s.address ∷ [] in
    let (dx, dy, apart) = Distinct-append xs (ts ++ as1) distinct in
    let (dt, da, apart2) = Distinct-append ts as1 dy in
    let live_y = All-append_right _ xs (ts ++ as1) live in
    let (m1, e1, f1) =
      free_types_of_array-Frees s.types s.shapes m at_types at_members
        (All-append_left _ xs (ts ++ as1) live) dx
        (λ a k. (mem-append_false a ts as1 (apart a k)).0) in
    let live_1 = AllLive-Frees xs (ts ++ as1) m m1 f1 apart live_y in
    let (m2, e2, f2) = free-Frees s.types m1 (All-append_left _ ts as1 live_1) in
    let (m3, e3, f3) =
      free-Frees (some s.address) m2
        (AllLive-Frees ts as1 m1 m2 f2 apart2 (All-append_right _ ts as1 live_1)) in
    (
      m3,
      rw (at_s, e1, e2, e3, cleanup_array, load, array_in) refl,
      Frees-trans xs (ts ++ as1) m m1 m3 f1 (Frees-trans ts as1 m1 m2 m3 f2 f3),
    )

ChainAt-Frees :
    (xs : List ℕ) (ss : List ArrayShape) (m m' : Heap)
    → Frees xs m m'
    → Apart xs (blocks_of_chain ss)
    → ChainAt m ss
    → ChainAt m' ss
ChainAt-Frees xs [] m m' f h at = tt
ChainAt-Frees xs (s ∷ ss) m m' f h (at_s, at_types, at_members, more) =
    let ys = blocks_of_types s.shapes in
    let ts = block_of s.types in
    let as1 = s.address ∷ [] in
    let zs = blocks_of_chain ss in
    let all = blocks_of_array s ++ zs in
    (
      Frees-outside xs m m' s.address f (
            Apart-sym xs all s.address h (
              mem-append_left s.address (blocks_of_array s) zs (
                mem-append_right s.address ys (ts ++ as1)
                  (mem-append_right s.address ts as1 (mem_head s.address [])))))
          ∙ at_s,
      TypesAt-Frees xs s.types s.shapes m m' f
          (λ a k. Apart-sym xs all a h (
            mem-append_left a (blocks_of_array s) zs
              (mem-append_right a ys (ts ++ as1) (mem-append_left a ts as1 k))))
          at_types,
      AllMembersAt-Frees xs s.shapes m m' f
          (λ a k.
            (mem-append_false a ys (ts ++ as1)
              (mem-append_false a (blocks_of_array s) zs (h a k)).0).0)
          at_members,
      ChainAt-Frees xs ss m m' f (λ a k. (mem-append_false a (blocks_of_array s) zs (h a k)).1)
          more,
    )

pub cleanup_custom_types-Frees :
    (fuel : ℕ) (ss : List ArrayShape) (m : Heap)
    → length ss ≤ fuel
    → ChainAt m ss
    → AllLive m (blocks_of_chain ss)
    → Distinct (blocks_of_chain ss)
    → (m' : Heap) × (cleanup_custom_types fuel (head_of ss) m ≡ some (ok m'))
      × Frees (blocks_of_chain ss) m m'
unfolding cleanup_custom_types
cleanup_custom_types-Frees fuel [] m enough at live distinct = (m, refl, λ a. refl)
cleanup_custom_types-Frees zero (s ∷ ss) m enough at live distinct = absurd (omega arith)
cleanup_custom_types-Frees (suc fuel) (s ∷ ss) m enough at live distinct =
    let xs = blocks_of_array s in
    let ys = blocks_of_chain ss in
    let (dx, dy, apart) = Distinct-append xs ys distinct in
    let (m1, e1, f1) = cleanup_array-Frees s ss m at (All-append_left _ xs ys live) dx in
    let (m2, e2, f2) =
      cleanup_custom_types-Frees fuel ss m1 (omega arith) (ChainAt-Frees xs ss m m1 f1 apart at.3)
        (AllLive-Frees xs ys m m1 f1 apart (All-append_right _ xs ys live)) dy in
    (m2, rw (e1, cleanup_custom_types) e2, Frees-trans xs ys m m1 m2 f1 f2)

module _ {S : Type 0} (E : UaEnd S) where
  -- What is destroyed with a server: when UA_Server_delete returns and leaves the custom types, which
  -- are the user's, ~Server returns, and of what is left it frees exactly the blocks of those types.
  pub destroy_server-Frees :
      (fuel : ℕ) (s : Server S) (ss : List ArrayShape) (m rest : Heap)
      → length ss ≤ fuel
      → E.custom_data_types (stop E.calls s).ua ≡ head_of ss
      → E.delete_server (stop E.calls s).ua m ≡ ok rest
      → ChainAt rest ss
      → AllLive rest (blocks_of_chain ss)
      → Distinct (blocks_of_chain ss)
      → (m' : Heap) × (destroy_server E fuel s m ≡ some (ok m'))
        × Frees (blocks_of_chain ss) rest m'
  unfolding destroy_server
  destroy_server-Frees fuel s ss m rest enough head deleted at live distinct =
      let (m', e, f) = cleanup_custom_types-Frees fuel ss rest enough at live distinct in
      (m', rw (deleted, head, destroy_server) e, f)
