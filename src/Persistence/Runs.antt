-- ===== src/Persistence/Runs.antt =====
-- `reconnectResultClient` at concrete inputs.
use match_engine.Prelude.{ℕ, zero, suc, ◌≡◌, refl, Bool, true, some}
use match_engine.Prelude.Result.{Result, ok, err, zmq_error, std_error}
use match_engine.Persistence.Lifetime.{reconnected, left_by, reconnect_result_client}

abbrev always : ℕ → Bool
always n = true

-- The first two rounds throw an error of the socket, the third connects.
abbrev third : ℕ → Result (Unit {0})
third zero = err (zmq_error "Connection refused")
third (suc zero) = err (zmq_error "Connection refused")
third (suc (suc n)) = ok tt

third_round : reconnect_result_client always third 5 0 ≡ some (reconnected 2)
unfolding reconnect_result_client
third_round = refl

-- Any other exception leaves the loop.
other_exception :
    reconnect_result_client always (λ n. err (std_error "bad_alloc")) 5 0
    ≡ some (left_by (std_error "bad_alloc") 0)
unfolding reconnect_result_client
other_exception = refl
