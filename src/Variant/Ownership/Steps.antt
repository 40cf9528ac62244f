-- ===== src/Variant/Ownership/Steps.antt =====
-- Programs over named objects of class Variant: each statement is one call of the class.
use modern_opc.Base.{
  ℕ, false, ◌==◌, if◌then◌else◌, Option, none, some, List, [], ◌∷◌, Outcome, ok, faults, bad_access,
  ◌>>=◌,
}
use modern_opc.Variant.{UaVariant}
use modern_opc.Variant.Ownership.{
  VariantMemory, Variant, wrap, default_construct, value_construct, set_value, destroy,
  copy_construct, copy_assign, move_construct, move_assign,
}

pub record State (Mem : Type 0) : Type 0 where
  pub mem : Mem
  pub vars : ℕ → Option Variant

-- Statements; the first name is the object that is constructed, assigned to or destroyed.
pub data Statement : Type 0 where
  default_constructs destroys : ℕ → Statement
  borrows : ℕ → ℕ → Statement
  value_constructs sets_value : ℕ → UaVariant → Statement
  copy_constructs copy_assigns move_constructs move_assigns : ℕ → ℕ → Statement

abbrev pub update : (ℕ → Option Variant) → ℕ → Option Variant → ℕ → Option Variant
update f x v y = if x == y then v else f y

-- A call on a name that is not alive is no program.
abbrev pub alive : Option Variant → Outcome Variant
alive none = faults bad_access
alive (some v) = ok v

module _ {Mem : Type 0} (M : VariantMemory Mem) where
  unfoldable pub step : Statement → State Mem → Outcome (State Mem)
  step (default_constructs x) s =
      let (v, m) = default_construct M s.mem in
      ok (record { mem = m; vars = update s.vars x (some v) })
  step (borrows x p) s = ok (record s { vars = update s.vars x (some (wrap M p false)) })
  step (destroys x) s = do
    v ← alive (s.vars x)
    m ← destroy M s.mem v
    ok (record { mem = m; vars = update s.vars x none })
  step (value_constructs x c) s = do
    (v, m) ← value_construct M s.mem c
    ok (record { mem = m; vars = update s.vars x (some v) })
  step (sets_value x c) s = do
    v ← alive (s.vars x)
    m ← set_value M s.mem v c
    ok (record s { mem = m })
  step (copy_constructs x y) s = do
    w ← alive (s.vars y)
    (v, m) ← copy_construct M s.mem w
    ok (record { mem = m; vars = update s.vars x (some v) })
  step (copy_assigns x y) s = do
    v ← alive (s.vars x)
    w ← alive (s.vars y)
    (v', m) ← copy_assign M s.mem v w
    ok (record { mem = m; vars = update s.vars x (some v') })
  step (move_constructs x y) s = do
    w ← alive (s.vars y)
    let (v', w') = move_construct M w
    ok (record s { vars = update (update s.vars x (some v')) y (some w') })
  step (move_assigns x y) s = do
    v ← alive (s.vars x)
    w ← alive (s.vars y)
    (v', w', m) ← move_assign M s.mem v w
    ok (record { mem = m; vars = update (update s.vars x (some v')) y (some w') })

  unfoldable pub run : List Statement → State Mem → Outcome (State Mem)
  run [] s = ok s
  run (c ∷ cs) s = do t ← step c s; run cs t
