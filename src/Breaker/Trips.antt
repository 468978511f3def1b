-- ===== src/Breaker/Trips.antt =====
-- When the breaker trips.
use d5net_billing.Prelude.{
  ℕ, suc, ◌+◌, ◌≡◌, ◌≢◌, refl, arith, true, false, not, some, [], ◌∷◌, inl, inr, ltb, leb, ◌==◌,
  Bool-cases, Option-cases,
}
use d5net_billing.Breaker.{
  Breaker, Breakers, closed, load, or_closed, store, allow, success, fail, failed, thirty_seconds,
}

load-store : (k : ℕ) (b : Breaker) (bs : Breakers) → load k (store k b bs) ≡ some b
load-store k b [] = (let e : (k == k) ≡ true = ground arith in rw e refl)
load-store k b (e ∷ es) =
    let own : (k == k) ≡ true = ground arith in
    elim (Bool-cases (e.0 == k)) [
      | inl hit ↦ rw (hit, own) refl
      | inr miss ↦ rw (miss, miss) (load-store k b es)
    ]

other_key : (j k : ℕ) → j ≢ k → (k == j) ≡ false
other_key j k h = ground arith

load-store_other :
    (j k : ℕ) (b : Breaker) (bs : Breakers) → j ≢ k → load j (store k b bs) ≡ load j bs
load-store_other j k b [] h = rw (other_key j k h) refl
load-store_other j k b (e ∷ es) h = elim (Bool-cases (e.0 == k)) [
  | inl hit ↦ let away : (e.0 == j) ≡ false = ground arith in rw (hit, away, other_key j k h) refl
  | inr miss ↦ rw miss (elim (Bool-cases (e.0 == j)) [
    | inl found ↦ rw found refl
    | inr missed ↦ rw missed (load-store_other j k b es h)
  ])
]

-- After three failures of a router with no success in between, whatever its breaker was, the
-- requests to it are refused for thirty seconds from the last, and then let through.
pub three_fails-allow :
    (k first second third now : ℕ) (bs : Breakers)
    → (allow k now (fail k third (fail k second (fail k first bs)))).0
      ≡ not (ltb now (third + thirty_seconds))
unfolding allow fail
three_fails-allow k first second third now bs =
    let b0 = or_closed (load k bs) in
    let s1 = store k (failed first b0) bs in
    let s2 = store k (failed second (failed first b0)) s1 in
    let b3 = failed third (failed second (failed first b0)) in
    let tripped : leb 3 (suc (suc (suc b0.failures))) ≡ true = ground arith in
    rw
      (
        load-store k (failed first b0) bs,
        load-store k (failed second (failed first b0)) s1,
        load-store k b3 s2,
        tripped,
      )
      refl

-- After a success the router's requests are let through at any time, and failures of one router
-- never change the answer for another.
pub success-allow :
    (k now : ℕ) (bs : Breakers)
    → ((allow k now (success k bs)).0 ≡ true)
      × ((j at : ℕ) → j ≢ k → (allow j now (fail k at bs)).0 ≡ (allow j now bs).0)
unfolding allow success fail
success-allow k now bs = (
  elim (Option-cases (load k bs)) [
    | inl missing ↦ rw (missing, missing) (ground arith)
    | inr (b, found) ↦ rw (found, load-store k closed bs) (ground arith)
  ],
  λ j at apart. rw (load-store_other j k (failed at (or_closed (load k bs))) bs apart) refl,
)
