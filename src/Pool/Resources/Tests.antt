-- ===== src/Pool/Resources/Tests.antt =====
-- A pool of two threads.
use let_us_connect_http_serv.Base.{[], false, none, refl, some, true, ◌++◌, ◌∷◌, ◌≡◌}
use let_us_connect_http_serv.Pool.Resources.{
  destroy_actions, gives, init_actions, state, takes, thread,
}
use let_us_connect_http_serv.Pool.Resources.Held.{made, nothing_held, replay}
use let_us_connect_http_serv.Pool.Resources.Balance.{left_over, replay-init_actions}

replay-init_actions_example :
    (replay (init_actions 2 true true ++ destroy_actions 2) nothing_held ≡ some left_over)
    × (replay (init_actions 2 false true) nothing_held
        ≡ some (record nothing_held { has_lock_memory = true }))
    × (replay (init_actions 2 true false) nothing_held
        ≡ some (record nothing_held { has_lock_memory = true }))
replay-init_actions_example = replay-init_actions 2 true

-- A state that is freed before its thread is joined is refused.
early_free : replay (gives (state 0) ∷ []) (made (takes (thread 0)) nothing_held) ≡ none
unfolding replay
early_free = refl
