-- ===== src/Variant/Ownership/Calls.antt =====
-- What each call of the class does to the owners, and what a statement needs of the state.
use modern_opc.Base.{
  ℕ, ◌≡◌, ◌≢◌, refl, subst, ◌∙◌, inl, inr, true, ◌==◌, Bool-cases, Option-cases, Option, none, some,
  ok, arith,
}
use modern_opc.Variant.{UaVariant, empty}
use modern_opc.Variant.Ownership.{
  VariantMemory, Variant, Cell, is_heap, destroy, copy_assign, ua_delete, ua_clear, ua_write,
  ua_copy,
}
use modern_opc.Variant.Ownership.Steps.{
  State, Statement, default_constructs, destroys, borrows, value_constructs, sets_value,
  copy_constructs, copy_assigns, move_constructs, move_assigns, update,
}
use modern_opc.Variant.Ownership.Invariant.{
  owned_ptr, NotNull, IsSound, Effect, Effect-IsSound, fresh-ne, is_heap-new, is_heap-new_self,
  is_heap-write, is_heap-delete,
}

module _ {Mem : Type 0} (M : VariantMemory Mem) where
  -- The object is alive, and so is the UA_Variant that it points to.
  pub record IsReadable (s : State Mem) (x : ℕ) : Type 0 where
    pub object : Variant
    pub address : ℕ
    pub target : Cell
    pub object_lem : s.vars x ≡ some object
    pub address_lem : object.variant ≡ some address
    pub target_lem : M.cell s.mem address ≡ some target

  abbrev pub IsAlive : State Mem → ℕ → Type 0
  IsAlive s x = (v : Variant) × (s.vars x ≡ some v)

  -- What a statement needs of the state: the objects that it names are alive, what is copied can be
  -- read, and what is copied into is an owner.
  abbrev pub Allowed : Statement → State Mem → Type 0
  Allowed (default_constructs x) s = Unit {0}
  Allowed (borrows x p) s = Unit {0}
  Allowed (value_constructs x c) s = Unit {0}
  Allowed (destroys x) s = IsAlive s x
  Allowed (sets_value x c) s = IsReadable s x
  Allowed (copy_constructs x y) s = IsReadable s y
  Allowed (copy_assigns x y) s =
      (v : Variant) × (s.vars x ≡ some v) × (v.owned ≡ true) × IsReadable s y
  Allowed (move_constructs x y) s = IsAlive s y
  Allowed (move_assigns x y) s = IsAlive s x × IsAlive s y

  abbrev pub Grows : Mem → Mem → Type 0
  Grows m m' = (p : ℕ) → is_heap (M.cell m p) ≡ true → is_heap (M.cell m' p) ≡ true

  -- A name becomes the owner of a new object.
  pub fresh-IsSound :
      (s : State Mem) (x : ℕ) (m : Mem)
      → Grows (M.new s.mem).1 m
      → IsSound M s
      → IsSound M (record {
        mem = m;
        vars = update s.vars x (some (record { variant = some (M.new s.mem).0; owned = true }));
      })
  fresh-IsSound s x m g i = Effect-IsSound M s _ x _ e i
    where
      e :
          Effect M s
            (record {
              mem = m;
              vars =
                  update s.vars x (some (record { variant = some (M.new s.mem).0; owned = true }));
            })
            x
            (some (record { variant = some (M.new s.mem).0; owned = true }))
      e = record {
        vars_lem = λ z. refl;
        keeps = λ z p n o. g p (is_heap-new M s.mem p (i.alive_owned z p o));
        holds = λ _ q. cc;
        mine = λ p q. g p (cc (is_heap-new_self M s.mem, q));
        only = λ z p n q o. fresh-ne M s z p i o (cc (q));
      }

  -- A name lets go of what it owned, which may be gone afterwards.
  pub drop-IsSound :
      (s : State Mem) (x : ℕ) (v : Option Variant) (m : Mem)
      → owned_ptr v ≡ none
      → NotNull v
      → ((z p : ℕ) → z ≢ x → owned_ptr (s.vars z) ≡ some p → is_heap (M.cell m p) ≡ true)
      → IsSound M s
      → IsSound M (record { mem = m; vars = update s.vars x v })
  drop-IsSound s x v m o n k i =
      Effect-IsSound M s (record { mem = m; vars = update s.vars x v }) x v
        (record {
          vars_lem = λ z. refl;
          keeps = k;
          holds = n;
          mine = λ p q. cc;
          only = λ z p h q. cc;
        })
        i

  -- The memory changes and every owned object stays.
  pub grow-IsSound :
      (s : State Mem) (m : Mem) → Grows s.mem m → IsSound M s → IsSound M (record s { mem = m })
  grow-IsSound s m g i = record {
    not_null = i.not_null;
    alive_owned = λ x p o. g p (i.alive_owned x p o);
    apart = i.apart;
  }

  pub owned_here :
      (s : State Mem) (x : ℕ) (v : Variant) (p : ℕ)
      → s.vars x ≡ some v
      → v.owned ≡ true
      → v.variant ≡ some p
      → owned_ptr (s.vars x) ≡ some p
  owned_here s x v p e o a = rw (e, o) a

  -- ~Variant returns, and frees nothing that another object owns.
  pub destroy_lem :
      (s : State Mem) (x : ℕ) (v : Variant)
      → s.vars x ≡ some v
      → IsSound M s
      → (m : Mem) × (destroy M s.mem v ≡ ok m)
        × ((z p : ℕ) → z ≢ x → owned_ptr (s.vars z) ≡ some p → is_heap (M.cell m p) ≡ true)
  unfolding destroy ua_delete
  destroy_lem s x v e i = elim (Bool-cases v.owned) [
    | inr f ↦ (s.mem, rw f, λ z p n o. i.alive_owned z p o)
    | inl t ↦ elim (Option-cases v.variant) [
      | inl n ↦ absurd (subst NotNull e (i.not_null x) t n)
      | inr (q, a) ↦
          let mine = owned_here s x v q e t a in
          (
            M.delete s.mem q,
            rw (t, a, i.alive_owned x q mine),
            λ z p n o.
                is_heap-delete M s.mem q p (λ w. n (i.apart z x p o (cc (mine, w))))
                ∙ i.alive_owned z p o,
          )
    ]
  ]

  pub write_lem :
      (m : Mem) (p : ℕ) (v : UaVariant) (c : Cell)
      → M.cell m p ≡ some c
      → ua_write M m (some p) v ≡ ok (M.write m p v)
  unfolding ua_write
  write_lem m p v c e = ground arith

  -- UA_Variant_copy from a readable object returns, and keeps what is on the heap.
  pub copy_lem :
      (m : Mem) (q p : ℕ) (c d : Cell)
      → M.cell m q ≡ some c
      → M.cell m p ≡ some d
      → ua_copy M m (some q) (some p) ≡ ok (M.write m p c.content)
  unfolding ua_copy
  copy_lem m q p c d e f = ground arith

  pub cell_of_heap :
      (m : Mem) (p : ℕ) → is_heap (M.cell m p) ≡ true → (c : Cell) × (M.cell m p ≡ some c)
  cell_of_heap m p h = elim (Option-cases (M.cell m p)) [
    | inl n ↦ absurd (ground (arith, n))
    | inr c ↦ c
  ]

  pub new_cell :
      (m : Mem) → M.cell (M.new m).1 (M.new m).0 ≡ some (record { on_heap = true; content = empty })
  new_cell m = ground (arith, M.cell-new m (M.new m).0)

  pub old_cell : (m : Mem) (q : ℕ) (c : Cell) → M.cell m q ≡ some c → M.cell (M.new m).1 q ≡ some c
  old_cell m q c e = ground (arith, M.cell-new m q, M.fresh m)

  -- UA_Variant_clear keeps an object alive, if empty.
  cleared_cell :
      (m : Mem) (p q : ℕ) (c : Cell)
      → M.cell m q ≡ some c
      → (d : Cell) × (M.cell (M.write m p empty) q ≡ some d)
  cleared_cell m p q c e = elim (Bool-cases (p == q)) [
    | inl h ↦ (record c { content = empty }, ground (arith, M.cell-write m p q empty))
    | inr h ↦ (c, ground (arith, M.cell-write m p q empty))
  ]

  copy_assign_eq :
      (m : Mem) (v w : Variant) (p q : ℕ) (c d g : Cell)
      → v.owned ≡ true
      → v.variant ≡ some p
      → w.variant ≡ some q
      → M.cell m p ≡ some c
      → M.cell (M.write m p empty) p ≡ some d
      → M.cell (M.write m p empty) q ≡ some g
      → copy_assign M m v w ≡ ok (v, M.write (M.write m p empty) p g.content)
  unfolding copy_assign ua_clear ua_copy
  copy_assign_eq m v w p q c d g o a b e f h = ground arith

  -- The copy assignment to an owner.
  pub copy_assign_lem :
      (s : State Mem) (x y : ℕ) (v : Variant)
      → s.vars x ≡ some v
      → v.owned ≡ true
      → (r : IsReadable s y) → IsSound M s
      → (m : Mem) × (copy_assign M s.mem v r.object ≡ ok (v, m)) × Grows s.mem m
  copy_assign_lem s x y v e o r i = elim (Option-cases v.variant) [
    | inl n ↦ absurd (subst NotNull e (i.not_null x) o n)
    | inr (p, a) ↦
        let (c, h) = cell_of_heap s.mem p (i.alive_owned x p (owned_here s x v p e o a)) in
        let (d, f) = cleared_cell s.mem p p c h in
        let (g, k) = cleared_cell s.mem p r.address r.target r.target_lem in
        (
          M.write (M.write s.mem p empty) p g.content,
          copy_assign_eq s.mem v r.object p r.address c d g o a r.address_lem h f k,
          λ q w.
              is_heap-write M (M.write s.mem p empty) p q g.content
              ∙ is_heap-write M s.mem p q empty
              ∙ w,
        )
  ]
