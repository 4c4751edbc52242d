-- ===== src/Worker/Schedule.antt =====
-- The loops `for { select { … } }` of the three workers: a cycle at the start, and one at each tick
-- until the context is done. Which of two ready channels `select` takes is in the list of signals.
use subscription_reconciler.Base.{◌≡◌, refl, List, [], ◌∷◌, ◌++◌}
use subscription_reconciler.Postgres.Session.{World}

pub data Signal : Type 0 where
  tick : Signal
  done : Signal

unfoldable pub run_signals : (World → World) → List Signal → World → World
run_signals cycle [] w = w
run_signals cycle (done ∷ signals) w = w
run_signals cycle (tick ∷ signals) w = run_signals cycle signals (cycle w)

unfoldable pub start : (World → World) → List Signal → World → World
unfolding run_signals
start cycle signals w = run_signals cycle signals (cycle w)

run_signals-done :
    (cycle : World → World) (before after : List Signal) (w : World)
    → run_signals cycle (before ++ done ∷ after) w ≡ run_signals cycle before w
unfolding run_signals
run_signals-done cycle [] after w = refl
run_signals-done cycle (done ∷ before) after w = refl
run_signals-done cycle (tick ∷ before) after w = run_signals-done cycle before after (cycle w)

-- Once the context is done, no cycle begins any more.
pub start-done :
    (cycle : World → World) (before after : List Signal) (w : World)
    → start cycle (before ++ done ∷ after) w ≡ start cycle before w
unfolding start
start-done cycle before after w = run_signals-done cycle before after (cycle w)
