-- ===== src/Server/Cleanup/Freed.antt =====
-- free, and the loop over the members of a type (cleanupCustomTypes, modernopc/src/Server.cpp).
use modern_opc.Base.{
  ℕ, zero, suc, ◌≡◌, refl, ◌∙◌, ◌⊎◌, inl, inr, ◌≤◌, Bool, true, false, Bool-cases, ◌==◌, ==_refl,
  ◌||◌, if◌then◌else◌, Option, none, some, List, [], ◌∷◌, ◌++◌, ok, arith, All-append_left,
  All-append_right, length, get_elem?, set, drop,
}
use modern_opc.Server.Cleanup.{
  Pointer, Block, members_block, Heap, put, free, load, members_in, element_at, clear_name,
  free_names, free_type, members_to_free,
}
use modern_opc.Server.Cleanup.Footprint.{
  mem, Distinct, mem-append, mem-append_false, Distinct-append, Frees, AllLive, Frees-trans,
  AllLive-Frees, TypeShape, block_of, blocks_of_names, blocks_of_type, MembersAt, freed_twice,
  MembersAt-Frees, Apart-sym, mem_head, mem-append_right,
}

pub put_same : (m : Heap) (a : ℕ) (b : Option Block) → put m a b a ≡ b
put_same m a b = rw (==_refl a) refl

pub put_other : (m : Heap) (a x : ℕ) (b : Option Block) → (a == x) ≡ false → put m a b x ≡ m x
put_other m a x b h = rw h refl

put-none-Frees : (m : Heap) (a : ℕ) → Frees (a ∷ []) m (put m a none)
put-none-Frees m a x = go (a == x)
  where
    go : (b : Bool) → (if b then none else m x) ≡ (if b || false then none else m x)
    go true = refl
    go false = refl

-- free of a block that is alive.
pub free-Frees :
    (p : Pointer) (m : Heap)
    → AllLive m (block_of p)
    → (m' : Heap) × (free p m ≡ ok m') × Frees (block_of p) m m'
unfolding free
free-Frees none m l = (m, refl, λ a. refl)
free-Frees (some a) m l = (put m a none, rw (l.0.1, free) refl, put-none-Frees m a)

pub get_elem?-drop :
    {A : Type 0} (xs : List A) (i : ℕ) (x : A) (rest : List A)
    → drop i xs ≡ x ∷ rest
    → get_elem? xs i ≡ some x
get_elem?-drop [] zero x rest h = cc h
get_elem?-drop [] (suc i) x rest h = cc h
get_elem?-drop (y ∷ ys) zero x rest h = cc h
get_elem?-drop (y ∷ ys) (suc i) x rest h = get_elem?-drop ys i x rest h

drop-set :
    {A : Type 0} (xs : List A) (i : ℕ) (x y : A) (rest : List A)
    → drop i xs ≡ x ∷ rest
    → drop (suc i) (set xs i y) ≡ rest
drop-set [] zero x y rest h = cc h
drop-set [] (suc i) x y rest h = cc h
drop-set (z ∷ zs) zero x y rest h = cc h
drop-set (z ∷ zs) (suc i) x y rest h = drop-set zs i x y rest h

AllLive-put :
    (m : Heap) (a : ℕ) (b : Option Block) (xs : List ℕ)
    → mem a xs ≡ false
    → AllLive m xs
    → AllLive (put m a b) xs
AllLive-put m a b [] h l = tt
AllLive-put m a b (x ∷ xs) h l =
    let (e, f) =
      mem-append_false a (x ∷ []) xs (mem-append a (x ∷ []) xs ∙ assoc (x == a) (mem a xs) h) in
    ((l.0.0, put_other m a x b (flip (neither e)) ∙ l.0.1), AllLive-put m a b xs f l.1)
  where
    assoc : (p q : Bool) → (p || q) ≡ false → ((p || false) || q) ≡ false
    assoc p q h = ground arith

    neither : (mem a (x ∷ []) ≡ false) → (x == a) ≡ false
    neither h = ground arith

    flip : (x == a) ≡ false → (a == x) ≡ false
    flip h = ground arith

-- After the loop over the names: the members' block is there, and of the others exactly the blocks
-- of the names are gone.
abbrev pub NamesFreed : ℕ → List ℕ → Heap → Heap → Type 0
NamesFreed a xs m m' =
    ((b : Block) × (m' a ≡ some b))
    × ((x : ℕ) → (a == x) ≡ false → m' x ≡ (if mem x xs then none else m x))

free_names_lem :
    (n a i : ℕ) (m : Heap) (names rest : List Pointer)
    → m a ≡ some (members_block names)
    → drop i names ≡ rest
    → n ≤ length rest
    → AllLive m (blocks_of_names n rest)
    → Distinct (blocks_of_names n rest)
    → mem a (blocks_of_names n rest) ≡ false
    → (m' : Heap) × (free_names n (some a) i m ≡ ok m') × NamesFreed a (blocks_of_names n rest) m m'
unfolding free_names load members_in element_at clear_name
free_names_lem zero a i m names rest at_a left enough live distinct out =
    (m, refl, ((members_block names, at_a), λ x h. refl))
free_names_lem (suc n) a i m names [] at_a left enough live distinct out = absurd (omega arith)
free_names_lem (suc n) a i m names (p ∷ rest) at_a left enough live distinct out =
    let ps = block_of p in
    let qs = blocks_of_names n rest in
    let (dp, dq, apart) = Distinct-append ps qs distinct in
    let (op, oq) = mem-append_false a ps qs out in
    let (m1, e1, f1) = free-Frees p m (All-append_left _ ps qs live) in
    let m2 : Heap = put m1 a (some (members_block (set names i none))) in
    let live2 =
      AllLive-put m1 a (some (members_block (set names i none))) qs oq
        (AllLive-Frees ps qs m m1 f1 apart (All-append_right _ ps qs live)) in
    let (m3, e3, (kept, f3)) =
      free_names_lem n a (suc i) m2 (set names i none) rest
        (put_same m1 a (some (members_block (set names i none))))
        (drop-set names i p none rest left) (omega arith) live2 dq oq in
    (
      m3,
      rw
          (
            at_a,
            get_elem?-drop names i p rest left,
            e1,
            free_names,
            load,
            members_in,
            element_at,
            clear_name,
          )
          e3,
      (
        kept,
        λ x h.
            f3 x h
            ∙ freed_twice x ps qs (m x) (m2 x)
                (put_other m1 a x (some (members_block (set names i none))) h ∙ f1 x),
      ),
    )

-- The loop, and then free of the members' block.
names_and_members-Frees :
    (d : TypeShape) (p : Pointer) (m : Heap)
    → MembersAt m p d
    → AllLive m (blocks_of_names (members_to_free d.type) d.names ++ block_of p)
    → Distinct (blocks_of_names (members_to_free d.type) d.names ++ block_of p)
    → (m1 m2 : Heap) × (free_names (members_to_free d.type) p 0 m ≡ ok m1)
      × (free p m1 ≡ ok m2)
      × Frees (blocks_of_names (members_to_free d.type) d.names ++ block_of p) m m2
unfolding free free_names
names_and_members-Frees d none m none_left live distinct =
    (m, m, rw (none_left, free_names) refl, refl, λ x. rw none_left refl)
names_and_members-Frees d (some a) m (at_a, enough) live distinct =
    let ns = blocks_of_names (members_to_free d.type) d.names in
    let (dn, da, apart) = Distinct-append ns (a ∷ []) distinct in
    let out : mem a ns ≡ false = elim (Bool-cases (mem a ns)) [
      | inl h ↦ cc (apart a h, mem_head a [])
      | inr h ↦ h
    ] in
    let (m1, e, ((b, kept), f)) =
      free_names_lem (members_to_free d.type) a 0 m d.names d.names at_a refl enough
        (All-append_left _ ns (a ∷ []) live) dn out in
    (m1, put m1 a none, e, rw (kept, free) refl, λ x. at x ns m1 (Bool-cases (a == x)) (f x))
  where
    last : (x : ℕ) (b : Bool) → none ≡ (if b || true then none else m x)
    last x true = refl
    last x false = refl

    at :
        (x : ℕ) (ns : List ℕ) (m1 : Heap)
        → ((a == x) ≡ true) ⊎ ((a == x) ≡ false)
        → ((a == x) ≡ false → m1 x ≡ (if mem x ns then none else m x))
        → put m1 a none x ≡ (if mem x (ns ++ (a ∷ [])) then none else m x)
    at x ns m1 (inl h) f = rw (mem-append x ns (a ∷ []), h) (last x (mem x ns))
    at x ns m1 (inr h) f = put-none-Frees m1 a x ∙ freed_twice x ns (a ∷ []) (m x) (m1 x) (f h)

-- The body of the loop over the types frees exactly the blocks of the type.
pub free_type-Frees :
    (d : TypeShape) (m : Heap)
    → MembersAt m d.type.members d
    → AllLive m (blocks_of_type d)
    → Distinct (blocks_of_type d)
    → (m' : Heap) × (free_type d.type m ≡ ok m') × Frees (blocks_of_type d) m m'
unfolding free_type
free_type-Frees d m at live distinct =
    let ts = block_of d.type.type_name in
    let ns = blocks_of_names (members_to_free d.type) d.names ++ block_of d.type.members in
    let (dt, dn, apart) = Distinct-append ts ns distinct in
    let (m1, e1, f1) = free-Frees d.type.type_name m (All-append_left _ ts ns live) in
    let (m2, m3, e2, e3, f3) =
      names_and_members-Frees d d.type.members m1
        (MembersAt-Frees ts d d.type.members m m1 f1
          (λ a h. Apart-sym ts ns a apart (
            mem-append_right a (blocks_of_names (members_to_free d.type) d.names)
              (block_of d.type.members) h))
          at)
        (AllLive-Frees ts ns m m1 f1 apart (All-append_right _ ts ns live)) dn in
    (m3, rw (e1, e2, e3, free_type) refl, Frees-trans ts ns m m1 m3 f1 f3)
