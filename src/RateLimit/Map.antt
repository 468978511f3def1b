-- ===== src/RateLimit/Map.antt =====
-- The limiter's map, and its quota over any sequence of calls.
use d5net_billing.Prelude.{
  ℕ, zero, suc, ◌≤◌, ◌<◌, ◌≡◌, ◌∙◌, refl, sym, arith, Bool, true, Option, none, some, List, [], ◌∷◌,
  ◌++◌, inl, inr, All, ltb, leb, length, keep, Bool-cases,
}
use d5net_billing.Prelude.Text.{Text, text_eq, text_eq_refl}
use d5net_billing.RateLimit.{
  Hits, find_hits, set_hits, in_window, retry_after, is_used, sweep, refuse, allow,
}
use d5net_billing.RateLimit.Window.{
  hits_at, hits_at-length, hits_at-keep, hits_at-snoc, length-snoc,
}

-- Every key in the map has a hit.
abbrev pub IsUsed : Hits → Type 0
IsUsed = All λ e. 0 < length (e.1)

find-set : (key : Text) (ts : List ℕ) (hits : Hits) → find_hits key (set_hits key ts hits) ≡ ts
find-set key ts [] = rw (text_eq_refl key) refl
find-set key ts (e ∷ es) = elim (Bool-cases (text_eq (e.0) key)) [
  | inl hit ↦ rw (hit, hit) refl
  | inr miss ↦ rw (miss, miss) (find-set key ts es)
]

set-IsUsed :
    (key : Text) (ts : List ℕ) (hits : Hits)
    → 0 < length ts
    → IsUsed hits
    → IsUsed (set_hits key ts hits)
set-IsUsed key ts [] some_hit h = (some_hit, tt)
set-IsUsed key ts (e ∷ es) some_hit (u, h) = elim (Bool-cases (text_eq (e.0) key)) [
  | inl hit ↦ rw hit (some_hit, h)
  | inr miss ↦ rw miss (u, set-IsUsed key ts es some_hit h)
]

keep-IsUsed : (hits : Hits) → IsUsed hits → keep is_used hits ≡ hits
keep-IsUsed [] h = refl
keep-IsUsed (e ∷ es) (u, h) =
    let used : is_used e ≡ true = ground arith in rw (used, keep-IsUsed es h) refl

-- The sweep finds nothing to remove.
pub sweep-IsUsed : (hits : Hits) → IsUsed hits → sweep hits ≡ hits
unfolding sweep
sweep-IsUsed hits h = elim (Bool-cases (ltb 10_000 (length hits))) [
  | inl large ↦ rw (large, keep-IsUsed hits h) refl
  | inr small ↦ rw small refl
]

-- The times of the calls that were let through, newest first.
abbrev pub let_through : ℕ → ℕ → List ℕ → List ℕ
let_through zero now accepted = now ∷ accepted
let_through (suc n) now accepted = accepted

abbrev pub next_calls :
    (Hits → List ℕ → Option (List ℕ)) → ℕ → List ℕ → Option (ℕ × Hits) → Option (List ℕ)
next_calls rest now accepted none = none
next_calls rest now accepted (some (n, hits)) = rest hits (let_through n now accepted)

-- The calls of one key at the given times.
unfoldable pub calls : Text → ℕ → ℕ → List ℕ → Hits → List ℕ → Option (List ℕ)
calls key limit window [] hits accepted = some accepted
calls key limit window (now ∷ times) hits accepted =
    let rest = calls key limit window times in
    next_calls rest now accepted (allow key limit window now hits)

abbrev pub IsAscending : ℕ → List ℕ → Type 0
IsAscending from [] = Unit
IsAscending from (t ∷ ts) = (from ≤ t) × IsAscending t ts

length-keep : (p : ℕ → Bool) (ts : List ℕ) → length (keep p ts) ≤ length ts
length-keep p [] = omega arith
length-keep p (t ∷ ts) = elim (Bool-cases (p t)) [
  | inl hit ↦ rw hit (omega (arith, length-keep p ts))
  | inr miss ↦ rw miss (omega (arith, length-keep p ts))
]

module _ (key : Text) (limit window : ℕ) (positive : 0 < limit) where
  -- The map knows the hits of the key from the time `from` on, and no more of them than the limit.
  record Knows (from : ℕ) (hits : Hits) (accepted : List ℕ) : Type 0 where
    same : (x : ℕ) → from ≤ x → hits_at window x accepted ≡ hits_at window x (find_hits key hits)
    bound : length (find_hits key hits) ≤ limit
    used : IsUsed hits

  -- A refused call leaves the key with the hits that are still in the window.
  refuse-Knows :
      (now : ℕ) (hits : Hits) (accepted kept : List ℕ)
      → ((x : ℕ) → now ≤ x → hits_at window x accepted ≡ hits_at window x kept)
      → limit ≤ length kept
      → length kept ≤ limit
      → IsUsed hits
      → (n : ℕ) × (hits' : Hits) × (refuse key kept hits (retry_after window now kept)
          ≡ some (suc n, hits'))
        × Knows now hits' accepted
  refuse-Knows now hits accepted [] same full bound used = absurd (omega (arith, positive))
  refuse-Knows now hits accepted (t ∷ ts) same full bound used =
      let kept = t ∷ ts in
      (
        _,
        set_hits key kept hits,
        refl,
        record {
          same = λ x h. rw (find-set key kept hits) (same x h);
          bound = rw (find-set key kept hits) bound;
          used = set-IsUsed key kept hits (omega arith) used;
        },
      )

  accept-Knows :
      (now : ℕ) (hits : Hits) (accepted kept : List ℕ)
      → ((x : ℕ) → now ≤ x → hits_at window x accepted ≡ hits_at window x kept)
      → length kept < limit
      → IsUsed hits
      → Knows now (set_hits key (kept ++ (now ∷ [])) hits) (now ∷ accepted)
  unfolding hits_at
  accept-Knows now hits accepted kept same room used =
      let more = kept ++ (now ∷ []) in
      let some_hit : 0 < length more = rw (length-snoc now kept) (omega arith) in
      record {
        same = λ x h. rw (find-set key more hits, hits_at-snoc window x now kept, same x h) refl;
        bound = rw (find-set key more hits, length-snoc now kept) (omega (arith, room));
        used = set-IsUsed key more hits some_hit used;
      }

  -- One call answers, and the map knows it.
  allow-Knows :
      (from now : ℕ) (hits : Hits) (accepted : List ℕ)
      → from ≤ now
      → Knows from hits accepted
      → (n : ℕ) × (hits' : Hits) × (allow key limit window now hits ≡ some (n, hits'))
        × Knows now hits' (let_through n now accepted)
  unfolding allow
  allow-Knows from now hits accepted order h =
      let stored = find_hits key hits in
      let kept = keep (in_window window now) stored in
      let same : (x : ℕ) → now ≤ x → hits_at window x accepted ≡ hits_at window x kept = λ x later.
        h.same x (omega (arith, later, order)) ∙ sym (hits_at-keep window now x stored later) in
      let fewer = length-keep (in_window window now) stored in
      elim (Bool-cases (leb limit (length kept))) [
        | inl full ↦
            let (n, hits', e, k) =
              refuse-Knows now hits accepted kept same (ground arith)
                (omega (arith, fewer, h.bound)) h.used in
            (suc n, hits', rw full e, k)
        | inr room ↦
            let more = kept ++ (now ∷ []) in
            let k = accept-Knows now hits accepted kept same (ground arith) h.used in
            (
              0,
              set_hits key more hits,
              rw (room, sweep-IsUsed (set_hits key more hits) (k.used)) refl,
              k,
            )
      ]

  calls-Knows :
      (times : List ℕ) (from : ℕ) (hits : Hits) (accepted : List ℕ)
      → IsAscending from times
      → Knows from hits accepted
      → (all : List ℕ) × (calls key limit window times hits accepted ≡ some all)
        × ((x : ℕ) → from ≤ x → All (λ t. t ≤ x) times → hits_at window x all ≤ limit)
  unfolding calls
  calls-Knows [] from hits accepted order h = (
    accepted,
    refl,
    λ x later past.
        rw (h.same x later) (omega (arith, hits_at-length window x (find_hits key hits), h.bound)),
  )
  calls-Knows (now ∷ times) from hits accepted (order, later) h =
      let (n, hits', e, k) = allow-Knows from now hits accepted order h in
      let (all, q, quota) = calls-Knows times now hits' (let_through n now accepted) later k in
      (all, rw e q, λ x start past. quota x (past.0) (past.1))

-- For a positive limit, the limiter answers every call of a key, in ascending order of time and from a
-- map without hits of it in which every key has a hit, and in no window, whenever it ends after the
-- last of the calls, does it let more of them through than the limit.
pub allow_quota :
    (key : Text) (limit window : ℕ) (times : List ℕ) (hits : Hits)
    → 0 < limit
    → IsAscending 0 times
    → IsUsed hits
    → find_hits key hits ≡ []
    → (accepted : List ℕ) × (calls key limit window times hits [] ≡ some accepted)
      × ((x : ℕ) → All (λ t. t ≤ x) times → hits_at window x accepted ≤ limit)
unfolding hits_at
allow_quota key limit window times hits positive order used new =
    let (all, e, quota) =
      calls-Knows key limit window positive times 0 hits [] order
        (record { same = λ x h. rw new refl; bound = rw new (omega arith); used = used }) in
    (all, e, λ x past. quota x (omega arith) past)

-- The sweep past 10000 keys never removes a key: for a positive limit and a key with no more hits
-- than the limit, a call in a map where every key has a hit leaves a map where every key has a hit,
-- and the sweep of that map is the map itself.
pub allow-sweep :
    (key : Text) (limit window now : ℕ) (hits : Hits)
    → 0 < limit
    → IsUsed hits
    → length (find_hits key hits) ≤ limit
    → (n : ℕ) × (hits' : Hits) × (allow key limit window now hits ≡ some (n, hits'))
      × IsUsed hits'
      × (sweep hits' ≡ hits')
allow-sweep key limit window now hits positive used bound =
    let (n, hits', e, k) =
      allow-Knows key limit window positive now now hits (find_hits key hits) (omega arith)
        (record { same = λ x h. refl; bound = bound; used = used }) in
    (n, hits', e, k.used, sweep-IsUsed hits' (k.used))
