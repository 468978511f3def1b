-- ===== src/Db/Answers.antt =====
-- Actions that answer: where no statement fails they succeed, in a world where none will.
use d5net_billing.Prelude.{◌≡◌, refl, ◌∙◌, true, Bool, Option, some}
use d5net_billing.Db.Rows.{Db}
use d5net_billing.Db.Monad.{
  World, M, Error, ok, pure, gets, select, write, transaction, guard, set_tenant_context, ◌>>=◌,
  ◌>>◌,
}
use d5net_billing.Db.Outcomes.{bump}
use d5net_billing.Db.Runs.{
  Calm, with_db, select-last, write-last, transaction-run, bind-run, then-run, gets-run, guard-run,
  tenant-run,
}

abbrev pub Succeeds : {A : Type 0} → M A → World → Type 0
Succeeds {A} m w = (a : A) × (v : World) × (m w ≡ (ok a, v)) × Calm v

module _ {A : Type 0} where
  pub pure-Succeeds : (a : A) (w : World) → Calm w → Succeeds (pure a) w
  unfolding pure
  pure-Succeeds a w calm = (a, w, refl, calm)

  pub select-Succeeds : (g : World → A) (w : World) → Calm w → Succeeds (select g) w
  select-Succeeds g w calm = (g w, bump w, select-last g w calm, calm)

  pub write-Succeeds :
      (f : World → Option (A × Db)) (w : World) (a : A) (d : Db)
      → Calm w
      → f w ≡ some (a, d)
      → Succeeds (write f) w
  write-Succeeds f w a d calm e = (a, with_db d (bump w), write-last f w a d calm e, calm)

  pub transaction-Succeeds :
      (m : M A) (w : World) → Calm w → Succeeds m (bump w) → Succeeds (transaction m) w
  transaction-Succeeds m w calm (a, v, e, later) =
      (a, bump v, transaction-run m w a v calm e later, later)

  pub guard-Succeeds :
      (c : Bool) (x : Error) (m : M A) (w : World)
      → c ≡ true
      → Succeeds m w
      → Succeeds (guard c x >> m) w
  guard-Succeeds c x m w h (a, v, e, calm) = (a, v, guard-run c x m w h ∙ e, calm)

module _ {A B : Type 0} where
  pub bind-Succeeds :
      (m : M A) (k : A → M B) (w : World)
      → Succeeds m w
      → ((a : A) (v : World) → m w ≡ (ok a, v) → Calm v → Succeeds (k a) v)
      → Succeeds (m >>= k) w
  bind-Succeeds m k w (a, v, e, calm) next =
      let (b, u, f, later) = next a v e calm in (b, u, bind-run m k w a v e ∙ f, later)

  pub then-Succeeds :
      (m : M A) (k : M B) (w : World)
      → Succeeds m w
      → ((a : A) (v : World) → m w ≡ (ok a, v) → Calm v → Succeeds k v)
      → Succeeds (m >> k) w
  then-Succeeds m k w (a, v, e, calm) next =
      let (b, u, f, later) = next a v e calm in (b, u, then-run m k w a v e ∙ f, later)

  pub gets-Succeeds :
      (g : World → A) (k : A → M B) (w : World) → Succeeds (k (g w)) w → Succeeds (gets g >>= k) w
  gets-Succeeds g k w (b, v, e, calm) = (b, v, gets-run g k w ∙ e, calm)

module _ {B : Type 0} where
  pub tenant-Succeeds :
      (m : M B) (w : World) → Calm w → Succeeds m (bump w) → Succeeds (set_tenant_context >> m) w
  tenant-Succeeds m w calm (a, v, e, later) = (a, v, tenant-run m w calm ∙ e, later)
