-- ===== src/Db/Outcomes.antt =====
-- Rules for what holds after an action, whichever of its statements fail: of the value and the
-- tables when it succeeds (Q), of the tables when it fails (E).
use d5net_billing.Prelude.{
  ℕ, zero, suc, ◌+◌, ◌≡◌, ◌≢◌, refl, arith, Bool, true, false, Option, none, some, if◌then◌else◌,
}
use d5net_billing.Db.Rows.{Db}
use d5net_billing.Db.Monad.{
  World, M, ⊤, Error, db_error, Result, ok, err, pure, throw, gets, select, write, rollback,
  transaction, guard, set_tenant_context, row, affected, or_else, recovered, ◌>>=◌, ◌>>◌,
}

abbrev pub Outcome : {A : Type 0} → (A → Db → Type 0) → (Db → Type 0) → Result A × World → Type 0
Outcome Q E (ok a, w) = Q a w.db
Outcome Q E (err e, w) = E w.db

abbrev pub bump : World → World
bump w = record w { tick = w.tick + 1 }

module _ {B : Type 0} (Q : B → Db → Type 0) (E : Db → Type 0) where
  pub if-Outcome :
      (c : Bool) (x y : Result B × World)
      → Outcome Q E x
      → Outcome Q E y
      → Outcome Q E (if c then x else y)
  if-Outcome true x y h k = h
  if-Outcome false x y h k = k

  pub pure-Outcome : (b : B) (w : World) → Q b w.db → Outcome Q E (pure b w)
  unfolding pure
  pure-Outcome b w h = h

  pub throw-Outcome : (e : Error) (w : World) → E w.db → Outcome Q E (throw e w)
  unfolding throw
  throw-Outcome e w h = h

  pub row-Outcome :
      (o : Option B) (w : World)
      → E w.db
      → ((b : B) → o ≡ some b → Q b w.db)
      → Outcome Q E (row o w)
  unfolding row pure throw
  row-Outcome none w e h = e
  row-Outcome (some b) w e h = h b refl

  pub write-Outcome :
      (f : World → Option (B × Db)) (w : World)
      → E w.db
      → ((b : B) (d : Db) → f w ≡ some (b, d) → Q b d)
      → Outcome Q E (write f w)
  unfolding write
  write-Outcome f w e h = if-Outcome (w.fault w.tick) _ _ e (go (f w) h)
    where
      go :
          (o : Option (B × Db))
          → ((b : B) (d : Db) → o ≡ some (b, d) → Q b d)
          → Outcome Q E (elim o [
            | none ↦ (err Error.rejected, bump w)
            | some (a, d) ↦ (ok a, record (bump w) { db = d })
          ])
      go none h = e
      go (some (b, d)) h = h b d refl

  pub transaction-Outcome :
      (m : M B) (w : World)
      → E w.db
      → Outcome (λ b d. Q b d) (λ d. Unit) (m (bump w))
      → Outcome Q E (transaction m w)
  unfolding transaction
  transaction-Outcome m w e h =
      if-Outcome (w.fault w.tick) _ (rollback w.db (m (bump w))) e (go (m (bump w)) h)
    where
      go : (r : Result B × World) → Outcome Q (λ d. Unit) r → Outcome Q E (rollback w.db r)
      go (ok b, v) h =
          if-Outcome (v.fault v.tick) (err db_error, record (bump v) { db = w.db }) (ok b, bump v) e
            h
      go (err x, v) h = e

module _ {A B : Type 0} (Q : B → Db → Type 0) (E : Db → Type 0) where
  pub >>=-Outcome :
      (R : A → Db → Type 0) (m : M A) (k : A → M B) (w : World)
      → Outcome R E (m w)
      → ((a : A) (v : World) → R a v.db → Outcome Q E (k a v))
      → Outcome Q E ((m >>= k) w)
  unfolding ◌>>=◌
  >>=-Outcome R m k w h next = go (m w) h
    where
      go :
          (r : Result A × World)
          → Outcome R E r
          → Outcome Q E (elim (r.0) [ ok a ↦ k a r.1 | err e ↦ (err e, r.1) ])
      go (ok a, v) h = next a v h
      go (err e, v) h = h

  pub >>-Outcome :
      (R : A → Db → Type 0) (m : M A) (k : M B) (w : World)
      → Outcome R E (m w)
      → ((a : A) (v : World) → R a v.db → Outcome Q E (k v))
      → Outcome Q E ((m >> k) w)
  unfolding ◌>>◌
  >>-Outcome R m k w h next = >>=-Outcome R m (λ _. k) w h next

  pub gets->>= :
      (g : World → A) (k : A → M B) (w : World)
      → Outcome Q E (k (g w) w)
      → Outcome Q E ((gets g >>= k) w)
  unfolding ◌>>=◌ gets
  gets->>= g k w h = h

  pub select->>= :
      (g : World → A) (k : A → M B) (w : World)
      → E w.db
      → Outcome Q E (k (g w) (bump w))
      → Outcome Q E ((select g >>= k) w)
  unfolding select ◌>>=◌
  select->>= g k w e h = go (w.fault w.tick)
    where
      go :
          (c : Bool)
          → let r : Result A × World = if c then (err db_error, bump w) else (ok (g w), bump w) in
            Outcome Q E (elim (r.0) [ ok a ↦ k a r.1 | err x ↦ (err x, r.1) ])
      go true = e
      go false = h

  pub write->>= :
      (f : World → Option (A × Db)) (k : A → M B) (w : World)
      → E w.db
      → ((a : A) (d : Db) (v : World) → f w ≡ some (a, d) → v.db ≡ d → Outcome Q E (k a v))
      → Outcome Q E ((write f >>= k) w)
  write->>= f k w e h =
      >>=-Outcome (λ a d. f w ≡ some (a, d)) (write f) k w
        (write-Outcome (λ a d. f w ≡ some (a, d)) E f w e (λ b d p. p)) (λ a v p. h a v.db v p refl)

  pub row->>= :
      (o : Option A) (k : A → M B) (w : World)
      → E w.db
      → ((a : A) → o ≡ some a → Outcome Q E (k a w))
      → Outcome Q E ((row o >>= k) w)
  unfolding row pure throw ◌>>=◌
  row->>= none k w e h = e
  row->>= (some a) k w e h = h a refl

module _ {B : Type 0} (Q : B → Db → Type 0) (E : Db → Type 0) where
  pub guard->> :
      (c : Bool) (x : Error) (m : M B) (w : World)
      → E w.db
      → (c ≡ true → Outcome Q E (m w))
      → Outcome Q E ((guard c x >> m) w)
  unfolding guard pure throw ◌>>◌ ◌>>=◌
  guard->> true x m w e h = h refl
  guard->> false x m w e h = e

  pub set_tenant_context->> :
      (m : M B) (w : World)
      → E w.db
      → Outcome Q E (m (bump w))
      → Outcome Q E ((set_tenant_context >> m) w)
  unfolding set_tenant_context ◌>>◌
  set_tenant_context->> m w e h = select->>= Q E (λ _. tt) (λ _. m) w e h

module _ (Q : ⊤ → Db → Type 0) (E : Db → Type 0) where
  pub affected-Outcome :
      (n : ℕ) (w : World) → E w.db → (0 ≢ n → Q tt w.db) → Outcome Q E (affected n w)
  unfolding affected guard pure throw
  affected-Outcome zero w e h = e
  affected-Outcome (suc n) w e h = h (omega arith)

-- What holds of the tables in either case.
pub Outcome_db :
    {A : Type 0} (P : Db → Type 0) (r : Result A × World) → Outcome (λ _. P) P r → P r.1.db
Outcome_db P (ok a, w) h = h
Outcome_db P (err e, w) h = h

pub Outcome-mono :
    {A : Type 0} (Q R : A → Db → Type 0) (E : Db → Type 0) (r : Result A × World)
    → Outcome R E r
    → ((a : A) (d : Db) → R a d → Q a d)
    → Outcome Q E r
Outcome-mono Q R E (ok a, w) h k = k a w.db h
Outcome-mono Q R E (err e, w) h k = h

pub Outcome-weaken :
    {A : Type 0} (Q : A → Db → Type 0) (E F : Db → Type 0) (r : Result A × World)
    → Outcome Q F r
    → ((d : Db) → F d → E d)
    → Outcome Q E r
Outcome-weaken Q E F (ok a, w) h k = h
Outcome-weaken Q E F (err e, w) h k = k w.db h

pub trivial-Outcome :
    {A : Type 0} (r : Result A × World) → Outcome {A = A} (λ _ _. Unit) (λ _. Unit) r
trivial-Outcome (ok a, w) = tt
trivial-Outcome (err e, w) = tt

pub db-Outcome :
    {A : Type 0} (P : Db → Type 0) (r : Result A × World) → P r.1.db → Outcome (λ _. P) P r
db-Outcome P (ok a, w) h = h
db-Outcome P (err e, w) h = h

pub or_else-Outcome :
    {A : Type 0} (P : Db → Type 0) (a : A) (m : M A) (w : World)
    → P (m w).1.db
    → Outcome (λ _. P) P (or_else a m w)
unfolding or_else
or_else-Outcome {A} P a m w h = go (m w) h
  where
    go : (r : Result A × World) → P r.1.db → Outcome (λ _. P) P (recovered a r)
    go (ok b, v) h = h
    go (err e, v) h = h

pub select-Outcome :
    {A : Type 0} (P : Db → Type 0) (f : World → A) (w : World)
    → P w.db
    → Outcome (λ _. P) P (select f w)
unfolding select
select-Outcome P f w h = if-Outcome (λ _. P) P (w.fault w.tick) _ _ h h
