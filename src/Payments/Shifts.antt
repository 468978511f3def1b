-- ===== src/Payments/Shifts.antt =====
-- How far an insert, a deletion and a restoration of one payment move the sums, and that they keep
-- the other promises of the payments table.
use d5net_billing.Prelude.{
  ℕ, ◌<◌, ◌≡◌, refl, ap, Bool, true, false, ◌&&◌, Option, none, some, List, [], ◌∷◌, not, ◌⊎◌, inl,
  inr, arith, All, find?, is_null, ◌==◌, Bool-cases, if◌then◌else◌,
}
use d5net_billing.Prelude.Int.{
  ℤ, pos, pos_part, neg_part, ◌+ℤ◌, ◌-ℤ◌, ◌<ℤ◌, int_laws, +ℤ_comm, eqb_ℤ,
}
use d5net_billing.Prelude.Int64.{IsInt64, ◌-64◌, -64_lem}
use d5net_billing.Db.{Payment, set_rows, set_rows-All, find?_holds}
use d5net_billing.Payments.{
  is_paid_status, payment_counts_toward_invoice, moves_invoice, is_payment, is_live_payment,
  is_trashed_payment, set_deleted_at,
}
use d5net_billing.Payments.Sums.{share, paid_sum, paid_sum-set, IsSound, HasNoId, HasUniqueIds}
use d5net_billing.Payments.Books.{Shift}

shift_out :
    (b : Bool) (x y a : ℤ)
    → x +ℤ (if b then a else pos 0) ≡ y +ℤ pos 0
    → x ≡ y +ℤ (if b then pos 0 -ℤ a else pos 0)
shift_out true x y a h = omega (int_laws, ap pos_part h, ap neg_part h)
shift_out false x y a h = omega (int_laws, ap pos_part h, ap neg_part h)

drop_zeros : (x y : ℤ) → x +ℤ pos 0 ≡ y +ℤ pos 0 → x ≡ y
drop_zeros x y h = omega (int_laws, ap pos_part h, ap neg_part h)

drop_zero : (x y : ℤ) → x +ℤ pos 0 ≡ y → x ≡ y
drop_zero x y h = omega (int_laws, ap pos_part h, ap neg_part h)

IsInt64-negated : (a : ℤ) → pos 0 <ℤ a → IsInt64 a → IsInt64 (pos 0 -ℤ a)
unfolding ◌-ℤ◌
IsInt64-negated a p h = ground arith

-- The Go value `-p.Amount`.
pub negated : (a : ℤ) → pos 0 <ℤ a → IsInt64 a → pos 0 -64 a ≡ pos 0 -ℤ a
negated a p h = -64_lem (pos 0) a (IsInt64-negated a p h)

pub negated_nonzero : (a : ℤ) → pos 0 <ℤ a → eqb_ℤ (pos 0 -ℤ a) (pos 0) ≡ false
unfolding ◌-ℤ◌
negated_nonzero a p = ground arith

pub positive_nonzero : (a : ℤ) → pos 0 <ℤ a → eqb_ℤ a (pos 0) ≡ false
positive_nonzero a p = ground arith

pub moves_of_sound : (p : Payment) → IsSound p → moves_invoice p ≡ is_paid_status p.status
unfolding payment_counts_toward_invoice
moves_of_sound p s = rw (s.normal) (ground (arith, s.positive))

HasNoId-set :
    (k : ℕ) (c : Payment → Bool) (at : Option ℕ) (ps : List Payment)
    → HasNoId k ps
    → HasNoId k (set_rows c (set_deleted_at at) ps)
HasNoId-set k c at ps h = set_rows-All c (set_deleted_at at) ps (λ x hx. hx) h

pub HasUniqueIds-set :
    (c : Payment → Bool) (at : Option ℕ) (ps : List Payment)
    → HasUniqueIds ps
    → HasUniqueIds (set_rows c (set_deleted_at at) ps)
unfolding set_rows
HasUniqueIds-set c at [] h = tt
HasUniqueIds-set c at (p ∷ ps) (n, h) = elim (Bool-cases (c p)) [
  | inl e ↦ rw e (HasNoId-set p.id c at ps n, HasUniqueIds-set c at ps h)
  | inr e ↦ rw e (HasNoId-set p.id c at ps n, HasUniqueIds-set c at ps h)
]

pub IsSound-set :
    (c : Payment → Bool) (at : Option ℕ) (ps : List Payment)
    → All IsSound ps
    → All IsSound (set_rows c (set_deleted_at at) ps)
IsSound-set c at ps h =
    set_rows-All c (set_deleted_at at) ps
      (λ x s. record { normal = s.normal; positive = s.positive; fits = s.fits }) h

module _ (t k : ℕ) (ps : List Payment) {p : Payment} (unique : HasUniqueIds ps)
    (found : find? (is_payment t k) ps ≡ some p) where
  tenant : p.tenant_id ≡ t
  tenant = let h = find?_holds (is_payment t k) ps found in ground arith

  share_own :
      (inv t' k' : ℕ) (at : Option ℕ)
      → at ≡ none
      → p.invoice_id ≡ some inv
      → is_paid_status p.status ≡ true
      → share t' k' (set_deleted_at at p) ≡ (if t == t' && inv == k' then p.amount else pos 0)
  unfolding share
  share_own inv t' k' at live own paid =
      let home = tenant in rw (live, own, paid, home) (ground arith)

  share_trashed :
      (t' k' : ℕ) (at : Option ℕ) {now : ℕ}
      → at ≡ some now
      → share t' k' (set_deleted_at at p) ≡ pos 0
  unfolding share
  share_trashed t' k' at e = rw e (ground arith)

  -- A live counted payment of the invoice is deleted.
  pub delete-Shift :
      (inv : ℕ) (at : ℕ)
      → p.deleted_at ≡ none
      → p.invoice_id ≡ some inv
      → is_paid_status p.status ≡ true
      → Shift t inv
          (pos 0 -ℤ p.amount)
          ps
          (set_rows (is_live_payment t k) (set_deleted_at (some at)) ps)
  delete-Shift inv at live own paid t' k' =
      let e =
        paid_sum-set t k t' k' (λ q. is_null q.deleted_at) (some at) ps unique found (rw live) in
      let before = share_own inv t' k' p.deleted_at live own paid in
      let after = share_trashed t' k' (some at) refl in
      shift_out (t == t' && inv == k') _ _ p.amount (rw (before, after) at e)

  -- A trashed payment that counts comes back.
  pub restore-Shift :
      (inv : ℕ) {at : ℕ}
      → p.deleted_at ≡ some at
      → p.invoice_id ≡ some inv
      → is_paid_status p.status ≡ true
      → Shift t inv p.amount ps (set_rows (is_trashed_payment t k) (set_deleted_at none) ps)
  restore-Shift inv gone own paid t' k' =
      let e =
        paid_sum-set t k t' k' (λ q. not (is_null q.deleted_at)) none ps unique found (rw gone) in
      let before = share_trashed t' k' p.deleted_at gone in
      let after = share_own inv t' k' none refl own paid in drop_zero _ _ (rw (before, after) at e)

  share_idle :
      (t' k' : ℕ) (at : Option ℕ)
      → ((p.invoice_id ≡ none) ⊎ (is_paid_status p.status ≡ false))
      → share t' k' (set_deleted_at at p) ≡ pos 0
  unfolding share
  share_idle t' k' at (inl e) = rw e (ground arith)
  share_idle t' k' at (inr e) = rw e (ground arith)

  -- A payment that counts for no invoice moves no sum.
  pub idle_unmoved :
      (c : Payment → Bool) (at : Option ℕ)
      → c p ≡ true
      → ((p.invoice_id ≡ none) ⊎ (is_paid_status p.status ≡ false))
      → (t' k' : ℕ)
      → paid_sum t' k' (set_rows (λ q. is_payment t k q && c q) (set_deleted_at at) ps)
        ≡ paid_sum t' k' ps
  idle_unmoved c at h idle t' k' =
      let e = paid_sum-set t k t' k' c at ps unique found h in
      let before = share_idle t' k' p.deleted_at idle in
      let after = share_idle t' k' at idle in drop_zeros _ _ (rw (before, after) at e)

-- A new live payment.
pub insert-Shift :
    (new : Payment) (inv : ℕ) (ps : List Payment)
    → new.deleted_at ≡ none
    → new.invoice_id ≡ some inv
    → is_paid_status new.status ≡ true
    → Shift new.tenant_id inv new.amount ps (new ∷ ps)
unfolding paid_sum share
insert-Shift new inv ps live own paid t' k' = rw (live, own, paid) (rw +ℤ_comm (ground arith))

pub insert_unmoved :
    (new : Payment) (ps : List Payment)
    → ((new.invoice_id ≡ none) ⊎ (is_paid_status new.status ≡ false))
    → (t' k' : ℕ) → paid_sum t' k' (new ∷ ps) ≡ paid_sum t' k' ps
unfolding paid_sum share
insert_unmoved new ps idle t' k' =
    let zero_share : share t' k' new ≡ pos 0 = elim idle [
      | inl e ↦ rw e (ground arith)
      | inr e ↦ rw e (ground arith)
    ] in
    rw zero_share (omega int_laws)

pub fresh-set :
    (n : ℕ) (c : Payment → Bool) (at : Option ℕ) (ps : List Payment)
    → All (λ p. p.id < n) ps
    → All (λ p. p.id < n) (set_rows c (set_deleted_at at) ps)
fresh-set n c at ps h = set_rows-All c (set_deleted_at at) ps (λ x hx. hx) h
