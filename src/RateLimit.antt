-- ===== src/RateLimit.antt =====
-- internal/httpx/ratelimit.go: the limiter of the authentication endpoints. Time counts
-- nanoseconds, the map of hits is an association list, and `none` stands for the panic of an index
-- out of range.
pub mod Window
pub mod Map
mod Tests
use mathlib.Core.Bool.{not}
use d5net_billing.Prelude.{
  ℕ, suc, ◌+◌, ◌-◌, ◌/◌, Bool, true, false, Option, none, some, List, [], ◌∷◌, ◌++◌, ltb, leb,
  length, keep, if◌then◌else◌,
}
use d5net_billing.Prelude.Text.{Text, text_eq}

abbrev pub Hits : Type 0
Hits = List (Text × List ℕ)

abbrev pub find_hits : Text → Hits → List ℕ
find_hits key [] = []
find_hits key (e ∷ es) = if text_eq (e.0) key then e.1 else find_hits key es

abbrev pub set_hits : Text → List ℕ → Hits → Hits
set_hits key ts [] = (key, ts) ∷ []
set_hits key ts (e ∷ es) = if text_eq (e.0) key then (e.0, ts) ∷ es else e ∷ set_hits key ts es

-- t.After(now.Add(-window))
abbrev pub in_window : ℕ → ℕ → ℕ → Bool
in_window window now t = ltb now (t + window)

abbrev pub second : ℕ
second = 1_000_000_000

-- The seconds to wait for the oldest hit to leave the window, and one more.
abbrev pub retry_after : ℕ → ℕ → List ℕ → Option ℕ
retry_after window now [] = none
retry_after window now (t ∷ ts) =
    let wait = (t + window) - now in
    some (suc ((if ltb wait second then second else wait) / second))

abbrev pub is_used : Text × List ℕ → Bool
is_used e = ltb 0 (length (e.1))

-- The entries that are left when the map has grown past 10000 keys.
unfoldable pub sweep : Hits → Hits
sweep hits = if ltb 10_000 (length hits) then keep is_used hits else hits

abbrev pub refuse : Text → List ℕ → Hits → Option ℕ → Option (ℕ × Hits)
refuse key kept hits none = none
refuse key kept hits (some n) = some (n, set_hits key kept hits)

-- authRateLimiter.allow at the time `now`
unfoldable pub allow : Text → ℕ → ℕ → ℕ → Hits → Option (ℕ × Hits)
unfolding sweep
allow key limit window now hits =
    let kept = keep (in_window window now) (find_hits key hits) in
    if leb limit (length kept)
    then refuse key kept hits (retry_after window now kept)
    else some (0, sweep (set_hits key (kept ++ (now ∷ [])) hits))
