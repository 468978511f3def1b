-- ===== src/Db/Monad.antt =====
-- Actions on the database. Any statement can fail (a lost connection, a cancelled context, a
-- constraint that the tables here do not show): `fault` says which ones do.
use d5net_billing.Prelude.{ℕ, zero, suc, ◌+◌, Bool, Option, none, some, if◌then◌else◌}
use d5net_billing.Db.Rows.{Db}

pub data Error : Type 0 where
  db_error rejected not_found not_trashed has_paid method_required bad_amount : Error

pub data Result (A : Type 0) : Type 0 where
  ok : A → Result A
  err : Error → Result A

abbrev pub ⊤ : Type 0
⊤ = Unit

-- `now` is time.Now() and NOW(), `today` is CURRENT_DATE.
pub record World : Type 0 where
  pub db : Db
  pub fault : ℕ → Bool
  pub tick : ℕ
  pub now : ℕ
  pub today : ℕ

abbrev pub M : Type 0 → Type 0
M A = World → Result A × World

module _ {A : Type 0} where
  unfoldable pub pure : A → M A
  pure a w = (ok a, w)

  unfoldable pub throw : Error → M A
  throw e w = (err e, w)

  -- A value that costs no statement, such as time.Now().
  unfoldable pub gets : (World → A) → M A
  gets f w = (ok (f w), w)

  -- A statement that reads.
  unfoldable pub select : (World → A) → M A
  select f w =
      let w' : World = record w { tick = w.tick + 1 } in
      if w.fault w.tick then (err db_error, w') else (ok (f w), w')

  -- A statement that writes. `none`: a BIGINT expression is out of range, or a constraint is broken.
  unfoldable pub write : (World → Option (A × Db)) → M A
  write f w =
      let w' : World = record w { tick = w.tick + 1 } in
      if w.fault w.tick
      then (err db_error, w')
      else elim (f w) [ none ↦ (err rejected, w') | some (a, d) ↦ (ok a, record w' { db = d }) ]

  -- Pool.Begin, the body, Commit; on an error the deferred Rollback undoes the body.
  abbrev pub rollback : Db → Result A × World → Result A × World
  rollback d (ok a, w) =
      let w' : World = record w { tick = w.tick + 1 } in
      if w.fault w.tick then (err db_error, record w' { db = d }) else (ok a, w')
  rollback d (err e, w) = (err e, record w { db = d })

  unfoldable pub transaction : M A → M A
  transaction m w =
      let w' : World = record w { tick = w.tick + 1 } in
      if w.fault w.tick then (err db_error, w') else rollback w.db (m w')

infixl 5 ◌>>=◌ ◌>>◌
unfoldable pub ◌>>=◌ : {A B : Type 0} → M A → (A → M B) → M B
◌>>=◌ m f w = let (r, w') = m w in elim r [ ok a ↦ f a w' | err e ↦ (err e, w') ]

unfoldable pub ◌>>◌ : {A B : Type 0} → M A → M B → M B
unfolding ◌>>=◌
m >> k = m >>= λ _. k

-- The value of a nullable column or of a query for one row, or an error.
unfoldable pub row : {A : Type 0} → Option A → M A
unfolding pure throw
row none = throw not_found
row (some a) = pure a

unfoldable pub guard : Bool → Error → M ⊤
unfolding pure throw
guard c e = if c then pure tt else throw e

-- Store.SetTenantContext
unfoldable pub set_tenant_context : M ⊤
unfolding select
set_tenant_context = select λ _. tt

-- ErrNotFound when no row was affected.
unfoldable pub affected : ℕ → M ⊤
unfolding pure throw
affected zero = throw not_found
affected (suc n) = pure tt

abbrev pub recovered : {A : Type 0} → A → Result A × World → Result A × World
recovered a (ok b, w) = (ok b, w)
recovered a (err e, w) = (ok a, w)

-- A call whose error is dropped, with the value that stays then.
unfoldable pub or_else : {A : Type 0} → A → M A → M A
or_else a m w = recovered a (m w)

-- What a run unfolds.
unfoldable pub monad : ⊤
unfolding pure throw gets select write transaction ◌>>=◌ ◌>>◌ guard set_tenant_context row affected
    or_else
monad = tt
