-- ===== src/Server/Running/Tests.antt =====
-- Server::run and Server::stop (modernopc/src/Server.cpp) of a small server.
use modern_opc.Base.{ℕ, suc, ◌+◌, ◌≡◌, ◌≢◌, refl, ◌⊎◌, true, false, [], ◌∷◌}
use modern_opc.Server.Tests.{start}
use modern_opc.Server.Running.{
  UaRun, before_run, in_iteration, back, before_stop, flag_cleared, stopped, System, of_run,
  of_stop, Step, begins, goes_on, iterates, returns, clears, shuts_down, Run, done, next, begin_run,
  clear_flag, shut_down,
}
use modern_opc.Server.Running.Laws.{stop-Run_comes_back, stop_before_run-lost}

-- Its state counts the iterations.
abbrev counting : UaRun ℕ
counting = record { startup = λ s. s; iterate = suc; shutdown = λ s. s }

-- stop is called, and clears the flag, in the middle of the first iteration.
abbrev in_first : System ℕ
in_first = record {
  server = record start { is_running = true };
  runner = in_iteration;
  stopper = before_stop;
}

abbrev stopping : System ℕ
stopping = record { server = start; runner = in_iteration; stopper = flag_cleared }

abbrev ended : System ℕ
ended = record { server = record start { ua = 1 }; runner = back; stopper = stopped }

begun :
    Run counting
      (of_run ∷ of_run ∷ [])
      (record { server = start; runner = before_run; stopper = before_stop })
      in_first
unfolding begin_run
begun = next begins (next (goes_on refl) done)

cleared : Step counting of_stop in_first stopping
unfolding clear_flag
cleared = clears

ends : Run counting (of_run ∷ of_stop ∷ of_run ∷ []) stopping ended
unfolding shut_down
ends = next iterates (next shuts_down (next (returns refl) done))

stop-Run_comes_back_example :
    (true ≡ true)
    × (in_iteration ≢ back)
    × (false ≡ false)
    × (2 + 0 ≡ 2)
    × ((back ≡ back) ⊎ ((m : System ℕ) × Step counting of_run ended m))
stop-Run_comes_back_example =
    stop-Run_comes_back counting (of_run ∷ []) (of_run ∷ of_stop ∷ of_run ∷ []) start in_first
      stopping ended begun refl cleared ends

abbrev iterating : System ℕ
iterating = record {
  server = record start { is_running = true };
  runner = in_iteration;
  stopper = stopped;
}

stop_first :
    Run counting
      (of_stop ∷ of_stop ∷ of_run ∷ of_run ∷ [])
      (record { server = start; runner = before_run; stopper = before_stop })
      iterating
unfolding begin_run clear_flag shut_down
stop_first = next clears (next shuts_down (next begins (next (goes_on refl) done)))

stop_before_run-lost_example :
    (true ≡ true) × (in_iteration ≢ back) × ((m : System ℕ) × Step counting of_run iterating m)
stop_before_run-lost_example =
    stop_before_run-lost counting (of_run ∷ []) start iterating stop_first
