-- ===== src/Queue/Tests.antt =====
-- The queue on short runs of calls.
use let_us_connect_http_serv.Base.{List, [], ok, ℕ, ◌∷◌, ◌≡◌}
use let_us_connect_http_serv.Queue.Fifo.{
  Call, done, popped, pops, pushed, pushes, queue_of, run, run-refines,
}

abbrev calls : List (Call ℕ)
calls = pushes 1 ∷ pushes 2 ∷ pops ∷ pushes 3 ∷ []

run-refines_example : run (calls) (queue_of {D = ℕ} []) ≡ ok (queue_of (2 ∷ 3 ∷ []))
run-refines_example = run-refines (pushed (pushed (popped (pushed done))))
