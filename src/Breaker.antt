-- ===== src/Breaker.antt =====
-- internal/provision/routeros/breaker.go: the circuit breaker of each router. Time counts
-- nanoseconds, 0 is time.Time{}, and the sync.Map is an association list; each call holds the lock of
-- its breaker, so that calls on one router follow each other.
pub mod Trips
mod Tests
use d5net_billing.Prelude.{
  ℕ, suc, ◌+◌, Bool, true, false, not, Option, none, some, List, [], ◌∷◌, ltb, leb, ◌==◌,
  if◌then◌else◌,
}

pub record Breaker : Type 0 where
  pub failures : ℕ
  pub open_until : ℕ

abbrev pub Breakers : Type 0
Breakers = List (ℕ × Breaker)

abbrev pub closed : Breaker
closed = record { failures = 0; open_until = 0 }

abbrev pub load : ℕ → Breakers → Option Breaker
load k [] = none
load k (e ∷ es) = if e.0 == k then some (e.1) else load k es

abbrev pub or_closed : Option Breaker → Breaker
or_closed none = closed
or_closed (some b) = b

abbrev pub store : ℕ → Breaker → Breakers → Breakers
store k b [] = (k, b) ∷ []
store k b (e ∷ es) = if e.0 == k then (k, b) ∷ es else e ∷ store k b es

-- allow: the answer, and the map with the router's breaker in it.
unfoldable pub allow : ℕ → ℕ → Breakers → Bool × Breakers
allow k now bs = let b = or_closed (load k bs) in (not (ltb now b.open_until), store k b bs)

abbrev pub reset : ℕ → Breakers → Option Breaker → Breakers
reset k bs none = bs
reset k bs (some b) = store k closed bs

-- success
unfoldable pub success : ℕ → Breakers → Breakers
success k bs = reset k bs (load k bs)

abbrev pub thirty_seconds : ℕ
thirty_seconds = 30_000_000_000

abbrev pub failed : ℕ → Breaker → Breaker
failed now b =
    let n = suc b.failures in
    record { failures = n; open_until = if leb 3 n then now + thirty_seconds else b.open_until }

-- fail
unfoldable pub fail : ℕ → ℕ → Breakers → Breakers
fail k now bs = store k (failed now (or_closed (load k bs))) bs
