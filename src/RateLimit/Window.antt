-- ===== src/RateLimit/Window.antt =====
-- Hits within a window.
use d5net_billing.Prelude.{
  ℕ, suc, ◌+◌, ◌≤◌, ◌≡◌, refl, arith, false, List, [], ◌∷◌, ◌++◌, inl, inr, length, keep,
  Bool-cases, if◌then◌else◌,
}
use d5net_billing.RateLimit.{in_window}

-- The hits in the window that ends at `x`.
unfoldable pub hits_at : ℕ → ℕ → List ℕ → ℕ
hits_at window x [] = 0
hits_at window x (t ∷ ts) = (if in_window window x t then 1 else 0) + hits_at window x ts

pub hits_at-length : (window x : ℕ) (ts : List ℕ) → hits_at window x ts ≤ length ts
unfolding hits_at
hits_at-length window x [] = omega arith
hits_at-length window x (t ∷ ts) =
    let rest = hits_at-length window x ts in
    elim (Bool-cases (in_window window x t)) [
      | inl hit ↦ rw hit (omega arith)
      | inr miss ↦ rw miss (omega arith)
    ]

-- A hit that has left the window stays out of it.
pub hits_at-keep :
    (window now x : ℕ) (ts : List ℕ)
    → now ≤ x
    → hits_at window x (keep (in_window window now) ts) ≡ hits_at window x ts
unfolding hits_at
hits_at-keep window now x [] h = refl
hits_at-keep window now x (t ∷ ts) h =
    let rest = hits_at-keep window now x ts h in
    elim (Bool-cases (in_window window now t)) [
      | inl hit ↦ rw (hit, rest) refl
      | inr miss ↦
          let gone : in_window window x t ≡ false = ground arith in
          rw (miss, gone, rest) (omega arith)
    ]

pub hits_at-snoc :
    (window x now : ℕ) (ts : List ℕ)
    → hits_at window x (ts ++ (now ∷ []))
      ≡ (if in_window window x now then 1 else 0) + hits_at window x ts
unfolding hits_at
hits_at-snoc window x now [] = refl
hits_at-snoc window x now (t ∷ ts) = rw (hits_at-snoc window x now ts) (omega arith)

pub length-snoc : (now : ℕ) (ts : List ℕ) → length (ts ++ (now ∷ [])) ≡ suc (length ts)
length-snoc now [] = refl
length-snoc now (t ∷ ts) = rw (length-snoc now ts) (omega arith)
