-- ===== src/Variant/Ownership/Safety.antt =====
-- The statements of a program of Variants, one by one.
use modern_opc.Base.{
  ℕ, ◌≡◌, ◌≢◌, refl, sym, subst, ◌∙◌, inl, inr, true, false, ◌==◌, Bool-cases, Option, none, some,
  Outcome, ok, arith, Returns,
}
use native.Mathlib.Decide.{ℕ_discrete}
use modern_opc.Variant.{UaVariant}
use modern_opc.Variant.Ownership.{
  VariantMemory, Variant, is_heap, wrap, moved_from, default_construct, value_construct, set_value,
  destroy, copy_construct, move_construct, move_assign,
}
use modern_opc.Variant.Ownership.Steps.{
  State, Statement, default_constructs, destroys, borrows, value_constructs, sets_value,
  copy_constructs, copy_assigns, move_constructs, move_assigns, update, step,
}
use modern_opc.Variant.Ownership.Invariant.{
  owned_ptr, NotNull, IsSound, Effect-IsSound, is_heap-write,
}
use modern_opc.Variant.Ownership.Calls.{
  IsReadable, IsAlive, Allowed, fresh-IsSound, drop-IsSound, grow-IsSound, destroy_lem, copy_lem,
  write_lem, new_cell, old_cell, copy_assign_lem,
}

module _ {Mem : Type 0} (M : VariantMemory Mem) where
  abbrev Keeps : Outcome (State Mem) → Type 0
  Keeps = Returns (IsSound M)

  -- An owned address moves from one name to another; what the first one owned may be gone.
  module _ (s : State Mem) (x y : ℕ) (w : Variant) (m : Mem) (e : s.vars y ≡ some w)
      (k : (z p : ℕ) → z ≢ x → owned_ptr (s.vars z) ≡ some p → is_heap (M.cell m p) ≡ true)
      (i : IsSound M s) where
    abbrev receiver : Option Variant
    receiver = some (record { variant = w.variant; owned = w.owned })

    abbrev handed_over : State Mem
    handed_over = record { mem = m; vars = update (update s.vars x receiver) y (some moved_from) }

    hand_over_self : x ≡ y → IsSound M handed_over
    hand_over_self q =
        Effect-IsSound M s handed_over y (some moved_from)
          (record {
            vars_lem = λ z. ground arith;
            keeps = λ z p n o. k z p (λ r. n (r ∙ q)) o;
            holds = λ r. cc;
            mine = λ p r. cc;
            only = λ z p n r. cc;
          })
          i

    abbrev both_dropped : State Mem
    both_dropped = record { mem = m; vars = update (update s.vars x none) y (some moved_from) }

    both_dropped-IsSound : IsSound M both_dropped
    both_dropped-IsSound =
        let d = drop-IsSound M s x none m refl tt k i in
        drop-IsSound M (record { mem = m; vars = update s.vars x none }) y (some moved_from) m refl
          (λ r. cc) (λ z p n o. d.alive_owned z p o) d

    owned_elsewhere :
        (z p : ℕ)
        → z ≢ x
        → owned_ptr (both_dropped.vars z) ≡ some p
        → (z ≢ y) × (owned_ptr (s.vars z) ≡ some p)
    owned_elsewhere z p n o = elim (Bool-cases (y == z)) [
      | inl h ↦ absurd (ground arith)
      | inr h ↦ (λ q. ground arith, ground arith)
    ]

    hand_over_other : x ≢ y → IsSound M handed_over
    hand_over_other n =
        Effect-IsSound M both_dropped handed_over x receiver
          (record {
            vars_lem = λ z. ground arith;
            keeps = λ z p _ o. both_dropped-IsSound.alive_owned z p o;
            holds = subst NotNull e (i.not_null y);
            mine = λ p o. k y p (λ q. n (sym q)) (subst (λ v. owned_ptr v ≡ some p) (sym e) o);
            only = λ z p d o h.
                let (ny, oz) = owned_elsewhere z p d h in
                ny (i.apart z y p oz (subst (λ v. owned_ptr v ≡ some p) (sym e) o));
          })
          both_dropped-IsSound

    hand_over-IsSound : IsSound M handed_over
    hand_over-IsSound = elim (ℕ_discrete x y) [
      | yes q ↦ hand_over_self q
      | no n ↦ hand_over_other n
    ]

  step-IsSound-default :
      (s : State Mem) (x : ℕ) → IsSound M s → Keeps (step M (default_constructs x) s)
  unfolding step default_construct
  step-IsSound-default s x i = fresh-IsSound M s x (M.new s.mem).1 (λ p h. h) i

  step-IsSound-value :
      (s : State Mem) (x : ℕ) (c : UaVariant)
      → IsSound M s
      → Keeps (step M (value_constructs x c) s)
  unfolding step value_construct
  step-IsSound-value s x c i =
      rw (write_lem M (M.new s.mem).1 (M.new s.mem).0 c _ (new_cell M s.mem), step)
        (fresh-IsSound M s x _ (λ p h. is_heap-write M _ _ p c ∙ h) i)

  step-IsSound-destroy :
      (s : State Mem) (x : ℕ) → IsAlive M s x → IsSound M s → Keeps (step M (destroys x) s)
  unfolding step
  step-IsSound-destroy s x (v, e) i =
      let (m, r, k) = destroy_lem M s x v e i in rw (e, r) (drop-IsSound M s x none m refl tt k i)

  step-IsSound-set :
      (s : State Mem) (x : ℕ) (c : UaVariant)
      → IsReadable M s x
      → IsSound M s
      → Keeps (step M (sets_value x c) s)
  unfolding step set_value
  step-IsSound-set s x c r i =
      rw (r.object_lem, r.address_lem, write_lem M s.mem r.address c r.target r.target_lem, step)
        (grow-IsSound M s _ (λ p h. is_heap-write M _ _ p c ∙ h) i)

  step-IsSound-copy :
      (s : State Mem) (x y : ℕ)
      → IsReadable M s y
      → IsSound M s
      → Keeps (step M (copy_constructs x y) s)
  unfolding step copy_construct
  step-IsSound-copy s x y r i =
      rw
        (
          r.object_lem,
          r.address_lem,
          copy_lem M (M.new s.mem).1 r.address (M.new s.mem).0 r.target _
              (old_cell M s.mem r.address r.target r.target_lem) (new_cell M s.mem),
          step,
        )
        (fresh-IsSound M s x _ (λ p h. is_heap-write M _ _ p r.target.content ∙ h) i)

  step-IsSound-copy_assign :
      (s : State Mem) (x y : ℕ)
      → Allowed M (copy_assigns x y) s
      → IsSound M s
      → Keeps (step M (copy_assigns x y) s)
  unfolding step
  step-IsSound-copy_assign s x y (v, e, o, r) i =
      let (m, q, g) = copy_assign_lem M s x y v e o r i in
      rw (e, r.object_lem, q, step)
        (Effect-IsSound M s (record { mem = m; vars = update s.vars x (some v) }) x (some v)
          (record {
            vars_lem = λ z. refl;
            keeps = λ z p n h. g p (i.alive_owned z p h);
            holds = subst NotNull e (i.not_null x);
            mine = λ p h. g p (i.alive_owned x p (subst (λ u. owned_ptr u ≡ some p) (sym e) h));
            only = λ z p n h k. n (i.apart z x p k (subst (λ u. owned_ptr u ≡ some p) (sym e) h));
          })
          i)

  step-IsSound-move :
      (s : State Mem) (x y : ℕ)
      → IsAlive M s y
      → IsSound M s
      → Keeps (step M (move_constructs x y) s)
  unfolding step move_construct
  step-IsSound-move s x y (w, e) i =
      rw (e, step) (hand_over-IsSound s x y w s.mem e (λ z p _ o. i.alive_owned z p o) i)

  move_assign_lem :
      (m m' : Mem) (v w : Variant)
      → destroy M m v ≡ ok m'
      → move_assign M m v w ≡ ok (record { variant = w.variant; owned = w.owned }, moved_from, m')
  unfolding move_assign destroy
  move_assign_lem m m' v w e = rw e

  step-IsSound-move_assign :
      (s : State Mem) (x y : ℕ)
      → IsAlive M s x
      → IsAlive M s y
      → IsSound M s
      → Keeps (step M (move_assigns x y) s)
  unfolding step
  step-IsSound-move_assign s x y (v, e) (w, f) i =
      let (m, r, k) = destroy_lem M s x v e i in
      rw (e, f, move_assign_lem s.mem m v w r, step) (hand_over-IsSound s x y w m f k i)

  step-IsSound-borrow : (s : State Mem) (x p : ℕ) → IsSound M s → Keeps (step M (borrows x p) s)
  unfolding step
  step-IsSound-borrow s x p i =
      drop-IsSound M s x (some (wrap M p false)) s.mem refl (λ q. cc)
        (λ z q _ o. i.alive_owned z q o) i

  -- From a state in which owners are apart and alive, each call of class Variant that is allowed
  -- returns, with no double free and no access through a dangling or null pointer, and leaves
  -- such a state. A copy assignment is allowed only into an object that owns its UA_Variant.
  pub step-IsSound :
      (c : Statement) (s : State Mem) → Allowed M c s → IsSound M s → Keeps (step M c s)
  step-IsSound (default_constructs x) s h i = step-IsSound-default s x i
  step-IsSound (borrows x p) s h i = step-IsSound-borrow s x p i
  step-IsSound (value_constructs x c) s h i = step-IsSound-value s x c i
  step-IsSound (destroys x) s h i = step-IsSound-destroy s x h i
  step-IsSound (sets_value x c) s h i = step-IsSound-set s x c h i
  step-IsSound (copy_constructs x y) s h i = step-IsSound-copy s x y h i
  step-IsSound (copy_assigns x y) s h i = step-IsSound-copy_assign s x y h i
  step-IsSound (move_constructs x y) s h i = step-IsSound-move s x y h i
  step-IsSound (move_assigns x y) s h i = step-IsSound-move_assign s x y h.0 h.1 i
