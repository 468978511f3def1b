-- ===== src/LateFees/Rows.antt =====
-- One row of the invoices replaced, and what that leaves of the others.
use mathlib.Core.Option.{some-injective}
use d5net_billing.Prelude.{
  ℕ, ◌≡◌, ◌≢◌, refl, sym, ◌∙◌, ap, true, false, Option, none, some, List, [], ◌∷◌, All, inl, inr,
  arith, find?, Bool-cases,
}
use d5net_billing.Prelude.Sorting.{Distinct, All-map, All-both}
use d5net_billing.Db.{Invoice, update_rows, cons?_split, find?-All}
use d5net_billing.Invoices.{is_invoice, is_live_invoice}

abbrev pub invoice_id : Invoice → ℕ
invoice_id i = i.id

-- `ys` is `xs` with one row `i` replaced by `j`.
pub data Replaced (i j : Invoice) : List Invoice → List Invoice → Type 0 where
  here : {xs : List Invoice} → Replaced i j (i ∷ xs) (j ∷ xs)
  there : {x : Invoice} {xs ys : List Invoice} → Replaced i j xs ys → Replaced i j (x ∷ xs) (x ∷ ys)

update_rows-idle :
    (t k : ℕ) (f : Invoice → Option Invoice) (xs : List Invoice)
    → All (λ x. x.id ≢ k) xs
    → update_rows (is_invoice t k) f xs ≡ some xs
unfolding update_rows
update_rows-idle t k f [] h = refl
update_rows-idle t k f (x ∷ xs) (off, h) =
    let miss : is_invoice t k x ≡ false = ground arith in rw (miss, update_rows-idle t k f xs h)

-- The UPDATE of a live row by its id, where ids are unique.
pub update_rows-Replaced :
    (t : ℕ) (i : Invoice) (f : Invoice → Option Invoice) (xs : List Invoice) {ys : List Invoice}
    → Distinct invoice_id xs
    → find? (is_live_invoice t i.id) xs ≡ some i
    → update_rows (is_invoice t i.id) f xs ≡ some ys
    → (j : Invoice) × (f i ≡ some j) × Replaced i j xs ys
unfolding update_rows
update_rows-Replaced t i f [] h found e = cc
update_rows-Replaced t i f (x ∷ xs) {ys} (apart, h) found e =
    let (y, zs, head, tail, all) = cons?_split _ _ e in
    elim (Bool-cases (is_live_invoice t i.id x)) [
      | inl live ↦
          let this : x ≡ i = some-injective _ _ (rw live at found) in
          let own : is_invoice t i.id x ≡ true = ground arith in
          let key : x.id ≡ i.id = ap (λ v. v.id) this in
          let same : xs ≡ zs =
            some-injective _ _ (sym (update_rows-idle t i.id f xs (rw key at apart)) ∙ tail) in
          (y, rw this at (rw own at head), rw (all, ← same, this) here)
      | inr dead ↦
          let later = rw dead at found in
          let off = find?-All (λ v. v.id ≢ x.id) (is_live_invoice t i.id) xs later apart in
          let miss : is_invoice t i.id x ≡ false = ground arith in
          let (j, wrote, r) = update_rows-Replaced t i f xs h later tail in
          (j, wrote, rw (all, ← some-injective _ _ (rw miss at head)) (there r))
    ]

module _ (i j : Invoice) (same : j.id ≡ i.id) where
  Replaced-off :
      (k : ℕ) (xs ys : List Invoice)
      → Replaced i j xs ys
      → All (λ x. x.id ≢ k) xs
      → All (λ x. x.id ≢ k) ys
  Replaced-off k _ _ here (off, h) = ((λ q. off (sym same ∙ q)), h)
  Replaced-off k _ _ (there {x} {xs} {ys} r) (off, h) = (off, Replaced-off k xs ys r h)

  pub Replaced-Distinct :
      (xs ys : List Invoice) → Replaced i j xs ys → Distinct invoice_id xs → Distinct invoice_id ys
  Replaced-Distinct _ _ (here {xs}) (apart, h) = (All-map xs (λ x off q. off (q ∙ same)) apart, h)
  Replaced-Distinct _ _ (there {x} {xs} {ys} r) (apart, h) =
      (Replaced-off x.id xs ys r apart, Replaced-Distinct xs ys r h)

  -- Other rows are found as before.
  pub Replaced-found :
      (t : ℕ) (k : Invoice) (xs ys : List Invoice)
      → Replaced i j xs ys
      → k.id ≢ i.id
      → find? (is_live_invoice t k.id) xs ≡ some k
      → find? (is_live_invoice t k.id) ys ≡ some k
  Replaced-found t k _ _ (here {xs}) off found =
      let miss : is_live_invoice t k.id i ≡ false = ground arith in
      let other : is_live_invoice t k.id j ≡ false = ground arith in rw other (rw miss at found)
  Replaced-found t k _ _ (there {x} {xs} {ys} r) off found =
      elim (Bool-cases (is_live_invoice t k.id x)) [
        | inl hit ↦ rw hit (rw hit at found)
        | inr miss ↦ rw miss (Replaced-found t k xs ys r off (rw miss at found))
      ]

-- Every live row is found by its id, where ids are unique.
pub found_by_id :
    (t : ℕ) (xs : List Invoice)
    → Distinct invoice_id xs
    → All
        (λ i. i.tenant_id ≡ t → i.deleted_at ≡ none → find? (is_live_invoice t i.id) xs ≡ some i)
        xs
found_by_id t [] h = tt
found_by_id t (x ∷ xs) (apart, h) = (
  (λ tenant live.
      let hit : is_live_invoice t x.id x ≡ true = rw (tenant, live) (ground arith) in rw hit),
  All-both xs
      (λ y off found tenant live.
        let miss : is_live_invoice t y.id x ≡ false = ground arith in rw miss (found tenant live))
      apart (found_by_id t xs h),
)
