-- ===== src/Server/Running/Laws.antt =====
-- Server::run and Server::stop (modernopc/src/Server.cpp) in every order of their steps.
use modern_opc.Base.{
  ℕ, suc, ◌+◌, ◌≡◌, ◌≢◌, refl, ◌⊎◌, inl, inr, Bool-cases, true, false, List, [], ◌∷◌, arith,
}
use modern_opc.Server.Nodes.{Server}
use modern_opc.Server.Running.{
  UaRun, Runner, before_run, at_flag, in_iteration, back, Stopper, before_stop, System, Thread,
  of_run, of_stop, Step, begins, goes_on, iterates, returns, clears, shuts_down, Run, done, next,
  begin_run, clear_flag, shut_down,
}

-- How many steps of its own the thread of run needs to come back once the flag is false.
abbrev pub steps_left : Runner → ℕ
steps_left before_run = 0
steps_left at_flag = 1
steps_left in_iteration = 2
steps_left back = 0

abbrev pub steps_of_run : List Thread → ℕ
steps_of_run [] = 0
steps_of_run (of_run ∷ ts) = suc (steps_of_run ts)
steps_of_run (of_stop ∷ ts) = steps_of_run ts

steps_of_run-cons :
    (t : Thread) (ts : List Thread)
    → steps_of_run (t ∷ ts) ≡ steps_of_run (t ∷ []) + steps_of_run ts
steps_of_run-cons of_run ts = omega arith
steps_of_run-cons of_stop ts = omega arith

module _ {S : Type 0} (R : UaRun S) where
  -- run was called before stop cleared the flag.
  pub record IsStopping (s : System S) : Type 0 where
    pub cleared : s.server.is_running ≡ false
    pub called : s.runner ≢ before_run
    pub no_second_stop : s.stopper ≢ before_stop

  Step-IsStopping :
      {t : Thread} {s e : System S}
      → Step R t s e
      → IsStopping s
      → IsStopping e × (steps_of_run (t ∷ []) + steps_left e.runner ≡ steps_left s.runner)
  unfolding shut_down
  Step-IsStopping begins i = absurd (i.called refl)
  Step-IsStopping (goes_on h) i = cc (h, i.cleared)
  Step-IsStopping iterates i =
      (record { cleared = i.cleared; called = λ h. cc h; no_second_stop = i.no_second_stop }, refl)
  Step-IsStopping (returns h) i =
      (record { cleared = i.cleared; called = λ h. cc h; no_second_stop = i.no_second_stop }, refl)
  Step-IsStopping clears i = absurd (i.no_second_stop refl)
  Step-IsStopping (shuts_down) i =
      (record { cleared = i.cleared; called = i.called; no_second_stop = λ h. cc h }, omega arith)

  -- A thread of run that is not back has a step to make.
  next-Step :
      (e : System S)
      → e.runner ≢ before_run
      → (e.runner ≡ back) ⊎ ((m : System S) × Step R of_run e m)
  next-Step e called = go e.server e.runner e.stopper (Bool-cases e.server.is_running) called
    where
      go :
          (s : Server S) (r : Runner) (p : Stopper)
          → (s.is_running ≡ true) ⊎ (s.is_running ≡ false)
          → r ≢ before_run
          → (r ≡ back)
            ⊎ ((m : System S) × Step R of_run (record { server = s; runner = r; stopper = p }) m)
      go s before_run p h called = absurd (called refl)
      go s at_flag p (inl h) called = inr (_, goes_on h)
      go s at_flag p (inr h) called = inr (_, returns h)
      go s in_iteration p h called = inr (_, iterates)
      go s back p h called = inl refl

  IsStopping-Run :
      {ts : List Thread} {s e : System S}
      → Run R ts s e
      → IsStopping s
      → IsStopping e × (steps_of_run ts + steps_left e.runner ≡ steps_left s.runner)
  IsStopping-Run done i = (i, omega arith)
  IsStopping-Run (next {t = t} {ts = ts} x r) i =
      let (j, h) = Step-IsStopping x i in
      let (k, g) = IsStopping-Run r j in (k, omega (arith, steps_of_run-cons t ts, h, g))

  -- run was called, and stop was not: the flag is true, and run is not back.
  pub record IsRunning (s : System S) : Type 0 where
    pub running : s.server.is_running ≡ true
    pub iterating : (s.runner ≡ at_flag) ⊎ (s.runner ≡ in_iteration)

  -- What holds of a system whose run was called first, before and after the call of stop.
  abbrev Started : System S → Type 0
  Started s = (IsRunning s × (s.stopper ≡ before_stop)) ⊎ IsStopping s

  IsRunning-called : (s : System S) → IsRunning s → (s.runner ≢ before_run) × (s.runner ≢ back)
  IsRunning-called s i = elim i.iterating [
    | inl g ↦ (λ h. cc (h, g), λ h. cc (h, g))
    | inr g ↦ (λ h. cc (h, g), λ h. cc (h, g))
  ]

  Step-Started : {t : Thread} {s e : System S} → Step R t s e → Started s → Started e
  unfolding clear_flag
  Step-Started x (inr i) = inr (Step-IsStopping x i).0
  Step-Started begins (inl (i, p)) = absurd ((IsRunning-called _ i).0 refl)
  Step-Started (goes_on h) (inl (i, p)) = inl (record { running = h; iterating = inr refl }, p)
  Step-Started iterates (inl (i, p)) = inl (record { running = i.running; iterating = inl refl }, p)
  Step-Started (returns h) (inl (i, p)) = cc (h, i.running)
  Step-Started clears (inl (i, p)) =
      inr (record { cleared = refl; called = (IsRunning-called _ i).0; no_second_stop = λ h. cc h })
  Step-Started shuts_down (inl (i, p)) = cc p

  Started-Run : {ts : List Thread} {s e : System S} → Run R ts s e → Started s → Started e
  Started-Run done i = i
  Started-Run (next x r) i = Started-Run r (Step-Started x i)

  -- A server whose run is called first, and stop at any time later. In every order of the steps of the
  -- two threads, as long as stop was not called the flag is true and run is not back. Once stop has
  -- cleared the flag it stays false, the thread of run makes at most two more steps, one of them an
  -- iteration, and as long as it is not back it has one to make.
  pub stop-Run_comes_back :
      (ts us : List Thread) (s : Server S) (m n e : System S)
      → Run R (of_run ∷ ts) (record { server = s; runner = before_run; stopper = before_stop }) m
      → m.stopper ≡ before_stop
      → Step R of_stop m n
      → Run R us n e
      → (m.server.is_running ≡ true)
        × (m.runner ≢ back)
        × (e.server.is_running ≡ false)
        × (steps_of_run us + steps_left e.runner ≡ steps_left n.runner)
        × ((e.runner ≡ back) ⊎ ((x : System S) × Step R of_run e x))
  unfolding begin_run clear_flag
  stop-Run_comes_back ts us s m n e (next begins r) before x q =
      let there = Started-Run r (inl (record { running = refl; iterating = inl refl }, refl)) in
      elim there [
        | inr i ↦ absurd (i.no_second_stop before)
        | inl (i, p) ↦
            let (j, h) = IsStopping-Run q (cleared_now x i p) in
            (i.running, (IsRunning-called m i).1, j.cleared, h, next-Step e j.called)
      ]
    where
      cleared_now :
          {m n : System S}
          → Step R of_stop m n
          → IsRunning m
          → m.stopper ≡ before_stop
          → IsStopping n
      cleared_now clears i p = record {
        cleared = refl;
        called = (IsRunning-called _ i).0;
        no_second_stop = λ h. cc h;
      }
      cleared_now shuts_down i p = cc p

  -- stop came first, and run set the flag again.
  pub record IsLost (s : System S) : Type 0 where
    pub running : s.server.is_running ≡ true
    pub iterating : (s.runner ≡ at_flag) ⊎ (s.runner ≡ in_iteration)
    pub no_second_stop : s.stopper ≢ before_stop

  Step-IsLost : {t : Thread} {s e : System S} → Step R t s e → IsLost s → IsLost e
  unfolding shut_down
  Step-IsLost begins i = elim i.iterating [ inl h ↦ cc h | inr h ↦ cc h ]
  Step-IsLost (goes_on h) i = record {
    running = i.running;
    iterating = inr refl;
    no_second_stop = i.no_second_stop;
  }
  Step-IsLost iterates i = record {
    running = i.running;
    iterating = inl refl;
    no_second_stop = i.no_second_stop;
  }
  Step-IsLost (returns h) i = cc (h, i.running)
  Step-IsLost clears i = absurd (i.no_second_stop refl)
  Step-IsLost shuts_down i = record {
    running = i.running;
    iterating = i.iterating;
    no_second_stop = λ h. cc h;
  }

  IsLost-Run : {ts : List Thread} {s e : System S} → Run R ts s e → IsLost s → IsLost e
  IsLost-Run done i = i
  IsLost-Run (next x r) i = IsLost-Run r (Step-IsLost x i)

  -- The defect of run and stop: a stop that ends before the thread of run has set the flag is lost.
  -- Whatever steps follow, run is not back, the flag is true, and there is a further step to make.
  pub stop_before_run-lost :
      (ts : List Thread) (s : Server S) (e : System S)
      → Run R
          (of_stop ∷ of_stop ∷ of_run ∷ ts)
          (record { server = s; runner = before_run; stopper = before_stop })
          e
      → (e.server.is_running ≡ true) × (e.runner ≢ back) × ((m : System S) × Step R of_run e m)
  unfolding begin_run clear_flag shut_down
  stop_before_run-lost ts s e (next clears (next shuts_down (next begins r))) =
      let i =
        IsLost-Run r
          (record { running = refl; iterating = inl refl; no_second_stop = λ h. cc h }) in
      let called : e.runner ≢ before_run =
        (λ h. elim i.iterating [ inl g ↦ cc (h, g) | inr g ↦ cc (h, g) ]) in
      let away : e.runner ≢ back =
        (λ h. elim i.iterating [ inl g ↦ cc (h, g) | inr g ↦ cc (h, g) ]) in
      (i.running, away, elim (next-Step e called) [ inl h ↦ absurd (away h) | inr h ↦ h ])
