-- ===== src/Db/Tables.antt =====
-- UPDATE and SELECT on one table.
use mathlib.Core.Option.{some-injective}
use mathlib.Core.Path.{subst}
use d5net_billing.Prelude.{
  ℕ, ◌+◌, ◌≡◌, ◌∙◌, refl, sym, Bool, true, false, Option, none, some, List, [], ◌∷◌, All, find?,
  inl, inr, Bool-cases, if◌then◌else◌,
}

module _ {A : Type 0} where
  abbrev pub cons? : Option A → Option (List A) → Option (List A)
  cons? (some x) (some xs) = some (x ∷ xs)
  cons? _ _ = none

  -- UPDATE … SET f WHERE p. `none`: a value is out of range in some row.
  unfoldable pub update_rows : (A → Bool) → (A → Option A) → List A → Option (List A)
  update_rows p f [] = some []
  update_rows p f (x ∷ xs) = cons? (if p x then f x else some x) (update_rows p f xs)

  -- RowsAffected
  unfoldable pub count_rows : (A → Bool) → List A → ℕ
  count_rows p [] = 0
  count_rows p (x ∷ xs) = (if p x then 1 else 0) + count_rows p xs

  unfoldable pub set_rows : (A → Bool) → (A → A) → List A → List A
  set_rows p f [] = []
  set_rows p f (x ∷ xs) = (if p x then f x else x) ∷ set_rows p f xs

  pub cons?_split :
      (a : Option A) (b : Option (List A)) {ys : List A}
      → cons? a b ≡ some ys
      → (y : A) × (zs : List A) × (a ≡ some y) × (b ≡ some zs) × (ys ≡ y ∷ zs)
  cons?_split (some y) (some zs) e = (y, zs, refl, refl, sym (some-injective _ _ e))
  cons?_split none b e = cc
  cons?_split (some y) none e = cc

  cons?-All :
      {Q : A → Type 0} (a : Option A) (b : Option (List A)) {ys : List A}
      → cons? a b ≡ some ys
      → ((y : A) → a ≡ some y → Q y)
      → ((zs : List A) → b ≡ some zs → All Q zs)
      → All Q ys
  cons?-All {Q} (some y) (some zs) e hy hz = rw (← some-injective _ _ e) (hy y refl, hz zs refl)
  cons?-All none b e hy hz = cc
  cons?-All (some y) none e hy hz = cc

  -- What an UPDATE makes of a property of every row.
  pub update_rows-All :
      {P Q : A → Type 0} (p : A → Bool) (f : A → Option A) (xs : List A) {ys : List A}
      → update_rows p f xs ≡ some ys
      → ((x y : A) → P x → (if p x then f x else some x) ≡ some y → Q y)
      → All P xs
      → All Q ys
  unfolding update_rows
  update_rows-All p f [] e step h = rw (← some-injective _ _ e) tt
  update_rows-All p f (x ∷ xs) e step h =
      cons?-All (if p x then f x else some x) (update_rows p f xs) e (λ y. step x y h.0)
        (λ zs q. update_rows-All p f xs q step h.1)

  pub set_rows-All :
      {P : A → Type 0} (p : A → Bool) (f : A → A) (xs : List A)
      → ((x : A) → P x → P (f x))
      → All P xs
      → All P (set_rows p f xs)
  unfolding set_rows
  set_rows-All p f [] step h = tt
  set_rows-All p f (x ∷ xs) step (hx, h) = elim (Bool-cases (p x)) [
    | inl e ↦ rw e (step x hx, set_rows-All p f xs step h)
    | inr e ↦ rw e (hx, set_rows-All p f xs step h)
  ]

  -- The row that a query for one row finds meets its condition, and what holds of every row.
  pub find?_holds : (p : A → Bool) (xs : List A) {x : A} → find? p xs ≡ some x → p x ≡ true
  find?_holds p [] e = cc
  find?_holds p (y ∷ xs) e = elim (Bool-cases (p y)) [
    | inl hit ↦ rw (← some-injective _ _ (rw hit at e)) hit
    | inr miss ↦ find?_holds p xs (rw miss at e)
  ]

  pub find?-All :
      (P : A → Type 0) (p : A → Bool) (xs : List A) {x : A} → find? p xs ≡ some x → All P xs → P x
  find?-All P p [] e h = cc
  find?-All P p (y ∷ xs) e h = elim (Bool-cases (p y)) [
    | inl hit ↦ rw (← some-injective _ _ (rw hit at e)) (h.0)
    | inr miss ↦ find?-All P p xs (rw miss at e) h.1
  ]

  -- The row that a query finds after an UPDATE that keeps the query's condition.
  pub find?-update :
      (p q : A → Bool) (f : A → Option A) (xs : List A) {ys : List A} {x : A}
      → ((y z : A) → (if q y then f y else some y) ≡ some z → p z ≡ p y)
      → find? p xs ≡ some x
      → update_rows q f xs ≡ some ys
      → (y : A) × (find? p ys ≡ some y) × ((if q x then f x else some x) ≡ some y)
  unfolding update_rows
  find?-update p q f [] same found e = cc
  find?-update p q f (x ∷ xs) {ys} {x = x'} same found e =
      let (y, zs, head, tail, all) = cons?_split _ _ e in
      elim (Bool-cases (p x)) [
        | inl hit ↦
            let own : p y ≡ true = same x y head ∙ hit in
            let this : x ≡ x' = some-injective _ _ (rw hit at found) in
            (y, rw (all, own) refl, subst (λ v. (if q v then f v else some v) ≡ some y) this head)
        | inr miss ↦
            let other : p y ≡ false = same x y head ∙ miss in
            let rest = find?-update p q f xs same (rw miss at found) tail in
            (rest.0, rw (all, other) (rest.1), rest.2)
      ]
