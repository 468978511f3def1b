-- ===== src/Breaker/Tests.antt =====
-- Runs and the theorems about the breaker of a router 5.
use d5net_billing.Prelude.{ℕ, ◌+◌, ◌≡◌, ◌≢◌, refl, true, not, [], ltb}
use d5net_billing.Breaker.{Breakers, allow, success, fail, thirty_seconds}
use d5net_billing.Breaker.Trips.{three_fails-allow, success-allow}

two_fails_pass : (allow 5 12 (fail 5 11 (fail 5 10 []))).0 ≡ true
unfolding allow fail
two_fails_pass = refl

three_fails-allow_example :
    (allow 5 13 (fail 5 12 (fail 5 11 (fail 5 10 [])))).0 ≡ not (ltb 13 (12 + thirty_seconds))
three_fails-allow_example = three_fails-allow 5 10 11 12 13 []

abbrev open_breaker : Breakers
open_breaker = fail 5 12 (fail 5 11 (fail 5 10 []))

success-allow_example :
    ((allow 5 13 (success 5 open_breaker)).0 ≡ true)
    × ((j at : ℕ) → j ≢ 5 → (allow j 13 (fail 5 at open_breaker)).0 ≡ (allow j 13 open_breaker).0)
success-allow_example = success-allow 5 13 open_breaker
