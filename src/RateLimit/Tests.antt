-- ===== src/RateLimit/Tests.antt =====
-- Runs and the theorems about the limiter: two calls of one key in a window of ten.
use d5net_billing.Prelude.{ℕ, ◌≤◌, ◌≡◌, refl, List, [], ◌∷◌, arith, some, All}
use d5net_billing.Prelude.Text.{Text, text}
use d5net_billing.RateLimit.{Hits, allow, sweep}
use d5net_billing.RateLimit.Window.{hits_at}
use d5net_billing.RateLimit.Map.{IsUsed, calls, allow_quota, allow-sweep}

abbrev key : Text
key = text "10.0.0.1|login"

third_refused : calls key 2 10 (3 ∷ 4 ∷ 5 ∷ 13 ∷ []) [] [] ≡ some (13 ∷ 4 ∷ 3 ∷ [])
unfolding calls allow sweep
third_refused = refl

allow_quota_example :
    (accepted : List ℕ) × (calls key 2 10 (3 ∷ 4 ∷ 5 ∷ []) [] [] ≡ some accepted)
    × ((x : ℕ) → All (λ t. t ≤ x) (3 ∷ 4 ∷ 5 ∷ []) → hits_at 10 x accepted ≤ 2)
allow_quota_example =
    allow_quota key 2 10 (3 ∷ 4 ∷ 5 ∷ []) [] (omega arith)
      (omega arith, (omega arith, (omega arith, tt))) tt refl

allow-sweep_example :
    (n : ℕ) × (hits : Hits) × (allow key 2 10 5 ((key, 3 ∷ 4 ∷ []) ∷ []) ≡ some (n, hits))
    × IsUsed hits
    × (sweep hits ≡ hits)
allow-sweep_example =
    allow-sweep key 2 10 5 ((key, 3 ∷ 4 ∷ []) ∷ []) (omega arith) (omega arith, tt) (omega arith)
