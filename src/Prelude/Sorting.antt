-- ===== src/Prelude/Sorting.antt =====
-- What sorting and filtering keep: the elements, a property of all of them, and the order of a key.
use Prim.Native.Nat.{ℕ, ◌≤◌}
use mathlib.Core.Path.{◌≡◌, refl, sym}
use mathlib.Core.Logic.{◌≢◌, ◌⊎◌, inl, inr}
use mathlib.Core.Bool.{Bool, true, false}
use mathlib.Core.List.{List, [], ◌∷◌}
use native.Mathlib.Omega.{arith}
use d5net_billing.Prelude.Tests.{Bool-cases}
use d5net_billing.Prelude.Lists.{All, keep, insert_by, sort_by}

module _ {A : Type 0} where
  pub All-map : {P Q : A → Type 0} (xs : List A) → ((x : A) → P x → Q x) → All P xs → All Q xs
  All-map [] f h = tt
  All-map (x ∷ xs) f (hx, h) = (f x hx, All-map xs f h)

  pub All-both :
      {P Q R : A → Type 0} (xs : List A)
      → ((x : A) → P x → Q x → R x)
      → All P xs
      → All Q xs
      → All R xs
  All-both [] f h k = tt
  All-both (x ∷ xs) f (hx, h) (kx, k) = (f x hx kx, All-both xs f h k)

  -- `x` is in the list.
  abbrev pub Has : A → List A → Type 0
  Has x [] = ⊥
  Has x (y ∷ ys) = (x ≡ y) ⊎ Has x ys

  pub keep-All :
      (P : A → Type 0) (p : A → Bool) (xs : List A)
      → All P xs
      → All (λ x. P x × (p x ≡ true)) (keep p xs)
  keep-All P p [] h = tt
  keep-All P p (x ∷ xs) (hx, h) = elim (Bool-cases (p x)) [
    | inl hit ↦ rw hit ((hx, hit), keep-All P p xs h)
    | inr miss ↦ rw miss (keep-All P p xs h)
  ]

  pub All-Has : (xs : List A) → All (λ x. Has x xs) xs
  All-Has [] = tt
  All-Has (x ∷ xs) = (inl refl, All-map xs (λ y h. inr h) (All-Has xs))

  kept-Has : (x y : A) (ys zs : List A) → (Has x ys → Has x zs) → Has x (y ∷ ys) → Has x (y ∷ zs)
  kept-Has x y ys zs f (inl q) = inl q
  kept-Has x y ys zs f (inr m) = inr (f m)

  later-Has :
      (x y : A) (ys zs : List A) → (Has x ys → Has x zs) → (x ≡ y → ⊥) → Has x (y ∷ ys) → Has x zs
  later-Has x y ys zs f n (inl q) = absurd (n q)
  later-Has x y ys zs f n (inr m) = f m

  told_apart : (p : A → Bool) (x y : A) → p x ≡ true → p y ≡ false → x ≡ y → ⊥
  told_apart p x y own miss q = cc

  pub keep-Has : (p : A → Bool) (x : A) (xs : List A) → p x ≡ true → Has x xs → Has x (keep p xs)
  keep-Has p x [] own h = h
  keep-Has p x (y ∷ ys) own h =
      let rest = keep-Has p x ys own in
      elim (Bool-cases (p y)) [
        | inl hit ↦ rw hit (kept-Has x y ys (keep p ys) rest h)
        | inr miss ↦ rw miss (later-Has x y ys (keep p ys) rest (told_apart p x y own miss) h)
      ]

  -- The keys go up.
  abbrev pub Ordered : (A → ℕ) → List A → Type 0
  Ordered key [] = Unit
  Ordered key (x ∷ xs) = All (λ y. key x ≤ key y) xs × Ordered key xs

  module _ (before : A → A → Bool) where
    pub insert_by-All :
        (P : A → Type 0) (x : A) (ys : List A) → P x → All P ys → All P (insert_by before x ys)
    insert_by-All P x [] hx h = (hx, tt)
    insert_by-All P x (y ∷ ys) hx (hy, h) = elim (Bool-cases (before x y)) [
      | inl e ↦ rw e (hx, (hy, h))
      | inr e ↦ rw e (hy, insert_by-All P x ys hx h)
    ]

    pub sort_by-All : (P : A → Type 0) (xs : List A) → All P xs → All P (sort_by before xs)
    sort_by-All P [] h = tt
    sort_by-All P (x ∷ xs) (hx, h) = insert_by-All P x (sort_by before xs) hx (sort_by-All P xs h)

    swapped-Has :
        (z x y : A) (ys zs : List A)
        → (Has z (x ∷ ys) → Has z zs)
        → Has z (x ∷ y ∷ ys)
        → Has z (y ∷ zs)
    swapped-Has z x y ys zs f (inl q) = inr (f (inl q))
    swapped-Has z x y ys zs f (inr (inl q)) = inl q
    swapped-Has z x y ys zs f (inr (inr m)) = inr (f (inr m))

    insert_by-Has : (z x : A) (ys : List A) → Has z (x ∷ ys) → Has z (insert_by before x ys)
    insert_by-Has z x [] h = h
    insert_by-Has z x (y ∷ ys) h = elim (Bool-cases (before x y)) [
      | inl e ↦ rw e h
      | inr e ↦ rw e (swapped-Has z x y ys (insert_by before x ys) (insert_by-Has z x ys) h)
    ]

    pub sort_by-Has : (z : A) (xs : List A) → Has z xs → Has z (sort_by before xs)
    sort_by-Has z [] h = h
    sort_by-Has z (x ∷ xs) (inl q) = insert_by-Has z x (sort_by before xs) (inl q)
    sort_by-Has z (x ∷ xs) (inr m) =
        insert_by-Has z x (sort_by before xs) (inr (sort_by-Has z xs m))

    module _ (key : A → ℕ) (first : (x y : A) → before x y ≡ true → key x ≤ key y)
        (second : (x y : A) → before x y ≡ false → key y ≤ key x) where
      insert_by-Ordered :
          (x : A) (ys : List A) → Ordered key ys → Ordered key (insert_by before x ys)
      insert_by-Ordered x [] h = (tt, tt)
      insert_by-Ordered x (y ∷ ys) (least, h) = elim (Bool-cases (before x y)) [
        | inl e ↦
            let le = first x y e in rw e ((le, All-map ys (λ z k. omega arith) least), (least, h))
        | inr e ↦
            rw e (
              insert_by-All (λ z. key y ≤ key z) x ys (second x y e) least,
              insert_by-Ordered x ys h,
            )
      ]

      pub sort_by-Ordered : (xs : List A) → Ordered key (sort_by before xs)
      sort_by-Ordered [] = tt
      sort_by-Ordered (x ∷ xs) = insert_by-Ordered x (sort_by before xs) (sort_by-Ordered xs)

  -- No two elements have the same key.
  abbrev pub Distinct : (A → ℕ) → List A → Type 0
  Distinct key [] = Unit
  Distinct key (x ∷ xs) = All (λ y. key y ≢ key x) xs × Distinct key xs

  module _ (key : A → ℕ) where
    pub keep-Distinct : (p : A → Bool) (xs : List A) → Distinct key xs → Distinct key (keep p xs)
    keep-Distinct p [] h = tt
    keep-Distinct p (x ∷ xs) (apart, h) =
        let rest = keep-Distinct p xs h in
        elim (Bool-cases (p x)) [
          | inl hit ↦
              rw hit
                (All-map (keep p xs) (λ y k. k.0) (keep-All (λ y. key y ≢ key x) p xs apart), rest)
          | inr miss ↦ rw miss rest
        ]

    insert_by-Distinct :
        (before : A → A → Bool) (x : A) (ys : List A)
        → All (λ y. key y ≢ key x) ys
        → Distinct key ys
        → Distinct key (insert_by before x ys)
    insert_by-Distinct before x [] apart h = (tt, tt)
    insert_by-Distinct before x (y ∷ ys) (off, apart) (least, h) = elim (Bool-cases (before x y)) [
      | inl e ↦ rw e ((off, apart), (least, h))
      | inr e ↦ rw e (
        insert_by-All before (λ z. key z ≢ key y) x ys (λ q. off (sym q)) least,
        insert_by-Distinct before x ys apart h,
      )
    ]

    pub sort_by-Distinct :
        (before : A → A → Bool) (xs : List A) → Distinct key xs → Distinct key (sort_by before xs)
    sort_by-Distinct before [] h = tt
    sort_by-Distinct before (x ∷ xs) (apart, h) =
        insert_by-Distinct before x (sort_by before xs)
          (sort_by-All before (λ y. key y ≢ key x) xs apart) (sort_by-Distinct before xs h)
