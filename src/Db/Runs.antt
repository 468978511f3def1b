-- ===== src/Db/Runs.antt =====
-- What an action computes in a world where no statement fails.
use d5net_billing.Prelude.{
  ℕ, zero, suc, ◌≡◌, ◌≢◌, refl, ap, Bool, true, false, Option, some, List, [], ◌∷◌, inl, inr,
  Bool-cases,
}
use d5net_billing.Db.Rows.{Db}
use d5net_billing.Db.Monad.{
  World, M, Error, ok, err, pure, gets, select, write, transaction, guard, set_tenant_context, row,
  affected, ◌>>=◌, ◌>>◌,
}
use d5net_billing.Db.Tables.{update_rows, set_rows}
use d5net_billing.Db.Outcomes.{bump}

abbrev pub Calm : World → Type 0
Calm w = (n : ℕ) → w.fault n ≡ false

abbrev pub with_db : Db → World → World
with_db d w = record w { db = d }

module _ {A : Type 0} where
  pub select-last : (g : World → A) (w : World) → Calm w → select g w ≡ (ok (g w), bump w)
  unfolding select
  select-last g w calm = rw (calm w.tick) refl

  pub write-last :
      (f : World → Option (A × Db)) (w : World) (a : A) (d : Db)
      → Calm w
      → f w ≡ some (a, d)
      → write f w ≡ (ok a, with_db d (bump w))
  unfolding write
  write-last f w a d calm e = rw (calm w.tick, e) refl

  pub transaction-run :
      (m : M A) (w : World) (a : A) (v : World)
      → Calm w
      → m (bump w) ≡ (ok a, v)
      → Calm v
      → transaction m w ≡ (ok a, bump v)
  unfolding transaction
  transaction-run m w a v calm e calm' = rw (calm w.tick, e) (rw (calm' v.tick) refl)

module _ {A B : Type 0} where
  pub bind-run :
      (m : M A) (k : A → M B) (w : World) (a : A) (v : World)
      → m w ≡ (ok a, v)
      → (m >>= k) w ≡ k a v
  unfolding ◌>>=◌
  bind-run m k w a v e = ap (λ r. elim (r.0) [ ok b ↦ k b r.1 | err x ↦ (err x, r.1) ]) e

  pub then-run :
      (m : M A) (k : M B) (w : World) (a : A) (v : World) → m w ≡ (ok a, v) → (m >> k) w ≡ k v
  unfolding ◌>>◌
  then-run m k w a v e = bind-run m (λ _. k) w a v e

  pub gets-run : (g : World → A) (k : A → M B) (w : World) → (gets g >>= k) w ≡ k (g w) w
  unfolding gets ◌>>=◌
  gets-run g k w = refl

  pub select-run :
      (g : World → A) (k : A → M B) (w : World) → Calm w → (select g >>= k) w ≡ k (g w) (bump w)
  select-run g k w calm = bind-run (select g) k w (g w) (bump w) (select-last g w calm)

  pub row-run :
      (o : Option A) (k : A → M B) (w : World) (a : A) → o ≡ some a → (row o >>= k) w ≡ k a w
  unfolding row pure ◌>>=◌
  row-run o k w a e = rw e refl

  pub write-run :
      (f : World → Option (A × Db)) (k : A → M B) (w : World) (a : A) (d : Db)
      → Calm w
      → f w ≡ some (a, d)
      → (write f >>= k) w ≡ k a (with_db d (bump w))
  write-run f k w a d calm e =
      bind-run (write f) k w a (with_db d (bump w)) (write-last f w a d calm e)

module _ {A : Type 0} where
  pub tenant-run : (m : M A) (w : World) → Calm w → (set_tenant_context >> m) w ≡ m (bump w)
  unfolding set_tenant_context
  tenant-run m w calm = then-run (select λ _. tt) m w tt (bump w) (select-last (λ _. tt) w calm)

  pub guard-run : (c : Bool) (x : Error) (m : M A) (w : World) → c ≡ true → (guard c x >> m) w ≡ m w
  unfolding guard pure ◌>>◌ ◌>>=◌
  guard-run c x m w e = rw e refl

  -- An UPDATE whose values are always in range.
  pub update_rows-total :
      (p : A → Bool) (f : A → Option A) (g : A → A) (xs : List A)
      → ((x : A) → f x ≡ some (g x))
      → update_rows p f xs ≡ some (set_rows p g xs)
  unfolding update_rows set_rows
  update_rows-total p f g [] total = refl
  update_rows-total p f g (x ∷ xs) total = elim (Bool-cases (p x)) [
    | inl hit ↦ rw (hit, total x, update_rows-total p f g xs total) refl
    | inr miss ↦ rw (miss, update_rows-total p f g xs total) refl
  ]

pub affected-run : (n : ℕ) (w : World) → 0 ≢ n → affected n w ≡ (ok tt, w)
unfolding affected pure
affected-run zero w some_row = absurd (some_row refl)
affected-run (suc n) w some_row = refl
