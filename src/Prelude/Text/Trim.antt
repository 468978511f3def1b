-- ===== src/Prelude/Text/Trim.antt =====
-- Trimming and lower case are stable: done twice they do what they do once.
use mathlib.Core.List.{map-append, reverse, reverse-append, reverse-reverse}
use d5net_billing.Prelude.{
  ℕ, ◌≡◌, refl, sym, ap, ◌∙◌, Bool, false, [], ◌∷◌, ◌++◌, inl, inr, arith, Bool-cases,
  if◌then◌else◌,
}
use d5net_billing.Prelude.Text.{Text, trim_left, trim, trim_space, is_space, to_lower, lower}

-- The text does not begin with a character to trim.
abbrev Stays : (ℕ → Bool) → Text → Type 0
Stays p [] = Unit
Stays p (c ∷ s) = p c ≡ false

module _ (p : ℕ → Bool) where
  trim_left-Stays : (s : Text) → Stays p (trim_left p s)
  trim_left-Stays [] = tt
  trim_left-Stays (c ∷ s) = elim (Bool-cases (p c)) [
    | inl e ↦ rw e (trim_left-Stays s)
    | inr e ↦ rw e e
  ]

  trim_left_id : (s : Text) → Stays p s → trim_left p s ≡ s
  trim_left_id [] h = refl
  trim_left_id (c ∷ s) h = rw h

  dropped : Text → Text
  dropped [] = []
  dropped (c ∷ s) = if p c then c ∷ dropped s else []

  dropped-append : (s : Text) → dropped s ++ trim_left p s ≡ s
  unfolding dropped
  dropped-append [] = refl
  dropped-append (c ∷ s) = elim (Bool-cases (p c)) [
    | inl e ↦ rw e (ap (◌∷◌ c) (dropped-append s))
    | inr e ↦ rw e
  ]

  Stays-prefix : (s t : Text) → Stays p (s ++ t) → Stays p s
  Stays-prefix [] t h = tt
  Stays-prefix (c ∷ s) t h = h

  -- The trimmed text begins where trimming on the left leaves it.
  trim-Stays : (s : Text) → Stays p (trim p s)
  unfolding trim
  trim-Stays s =
      let u = trim_left p s in
      let e : reverse (trim_left p (reverse u)) ++ reverse (dropped (reverse u)) ≡ u =
        sym (reverse-append (dropped (reverse u)) (trim_left p (reverse u)))
        ∙ ap reverse (dropped-append (reverse u))
        ∙ reverse-reverse u in
      Stays-prefix _ (reverse (dropped (reverse u))) (rw e (trim_left-Stays s))

  trim-trim : (s : Text) → trim p (trim p s) ≡ trim p s
  unfolding trim
  trim-trim s =
      let u = reverse (trim_left p s) in
      rw (
        trim_left_id (reverse (trim_left p u)) (trim-Stays s),
        reverse-reverse (trim_left p u),
        trim_left_id (trim_left p u) (trim_left-Stays u),
      )

  Stays-append : (s t : Text) → Stays p s → (s ≡ [] → ⊥) → Stays p (s ++ t)
  Stays-append [] t h some = absurd (some refl)
  Stays-append (c ∷ s) t h some = h

  -- Nor does a trimmed text end with one.
  reverse-trim-Stays : (s : Text) → Stays p (reverse (trim p s))
  unfolding trim
  reverse-trim-Stays s =
      let u = reverse (trim_left p s) in rw (reverse-reverse (trim_left p u)) (trim_left-Stays u)

  -- Text in front of a trimmed one stays, when it does not begin with a character to trim.
  trim-append :
      (c : ℕ) (s t : Text)
      → p c ≡ false
      → (trim p t ≡ [] → ⊥)
      → trim p ((c ∷ s) ++ trim p t) ≡ (c ∷ s) ++ trim p t
  unfolding trim
  trim-append c s t keeps some =
      let u = (c ∷ s) ++ trim p t in
      let full : reverse (trim p t) ≡ [] → ⊥ =
        λ e. some (sym (reverse-reverse (trim p t)) ∙ ap reverse e) in
      let stays : Stays p (reverse u) =
        rw (reverse-append (c ∷ s) (trim p t))
          (Stays-append (reverse (trim p t)) (reverse (c ∷ s)) (reverse-trim-Stays t) full) in
      rw (trim_left_id u keeps, trim_left_id (reverse u) stays, reverse-reverse u) refl

pub trim_space_twice : (s : Text) → trim_space (trim_space s) ≡ trim_space s
unfolding trim_space
trim_space_twice s = trim-trim is_space s

pub trim_space-append :
    (c : ℕ) (s t : Text)
    → is_space c ≡ false
    → (trim_space t ≡ [] → ⊥)
    → trim_space ((c ∷ s) ++ trim_space t) ≡ (c ∷ s) ++ trim_space t
unfolding trim_space
trim_space-append c s t = trim-append is_space c s t

lower-lower : (c : ℕ) → lower (lower c) ≡ lower c
lower-lower c = ground arith

is_space-lower : (c : ℕ) → is_space (lower c) ≡ is_space c
is_space-lower c = ground arith

trim_left-to_lower : (s : Text) → trim_left is_space (to_lower s) ≡ to_lower (trim_left is_space s)
trim_left-to_lower [] = refl
trim_left-to_lower (c ∷ s) = elim (Bool-cases (is_space c)) [
  | inl e ↦ rw (is_space-lower, e) (trim_left-to_lower s)
  | inr e ↦ rw (is_space-lower, e)
]

reverse-to_lower : (s : Text) → reverse (to_lower s) ≡ to_lower (reverse s)
reverse-to_lower [] = refl
reverse-to_lower (c ∷ s) =
    reverse-append (lower c ∷ []) (to_lower s)
    ∙ ap (λ t. t ++ (lower c ∷ [])) (reverse-to_lower s)
    ∙ sym (map-append lower (reverse s) (c ∷ []))
    ∙ ap to_lower (sym (reverse-append (c ∷ []) s))

pub trim_space-to_lower : (s : Text) → trim_space (to_lower s) ≡ to_lower (trim_space s)
unfolding trim_space
trim_space-to_lower s = simp (trim_left-to_lower, reverse-to_lower)

to_lower-to_lower : (s : Text) → to_lower (to_lower s) ≡ to_lower s
to_lower-to_lower [] = refl
to_lower-to_lower (c ∷ s) = rw (lower-lower, to_lower-to_lower s)

-- Lower-casing and trimming a lower-cased and trimmed text changes nothing.
pub to_lower-trim_space_self :
    (s : Text) → to_lower (trim_space (to_lower (trim_space s))) ≡ to_lower (trim_space s)
to_lower-trim_space_self s =
    rw (trim_space-to_lower (trim_space s), to_lower-to_lower (trim_space (trim_space s)))
      (ap to_lower (trim_space_twice s))
