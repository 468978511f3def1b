-- ===== src/Schedule/Settings.antt =====
-- The normal form of the settings: what it guarantees, and that it is stable.
use d5net_billing.Prelude.{
  ℕ, ◌≡◌, ◌≢◌, ◌%◌, ◌/◌, ◌*◌, refl, ap, Bool, true, false, ◌||◌, List, [], ◌∷◌, inl, inr, arith,
  All, any, Bool-cases,
}
use d5net_billing.Prelude.Int.{ℤ, pos, negsuc, pos_part, eqb_ℤ, ◌≤ℤ◌, ◌-ℤ◌, int_laws}
use d5net_billing.Prelude.Text.{text}
use d5net_billing.Schedule.{
  JobScheduleSettings, dedup_offsets, or_default, normal_offsets, out_of, within, capped,
  whole_minutes, normalize_job_schedule_settings,
}
use d5net_billing.Schedule.Clock.{IsPrinted, normalize_notify_time-IsPrinted}

abbrev pub IsWithin : ℤ → ℤ → ℤ → Type 0
IsWithin lo hi n = (lo ≤ℤ n) × (n ≤ℤ hi)

abbrev is_skipped : List ℤ → ℤ → Bool
is_skipped seen d = out_of (negsuc 29) (pos 30) d || any (eqb_ℤ d) seen

dedup-seen :
    (seen : List ℤ) (d : ℤ) (ds : List ℤ)
    → is_skipped seen d ≡ true
    → dedup_offsets seen (d ∷ ds) ≡ dedup_offsets seen ds
unfolding dedup_offsets
dedup-seen seen d ds e = rw (dedup_offsets, e)

dedup-new :
    (seen : List ℤ) (d : ℤ) (ds : List ℤ)
    → is_skipped seen d ≡ false
    → dedup_offsets seen (d ∷ ds) ≡ d ∷ dedup_offsets (d ∷ seen) ds
unfolding dedup_offsets
dedup-new seen d ds e = rw (dedup_offsets, e)

dedup-dedup :
    (seen ds : List ℤ) → dedup_offsets seen (dedup_offsets seen ds) ≡ dedup_offsets seen ds
unfolding dedup_offsets
dedup-dedup seen [] = refl
dedup-dedup seen (d ∷ ds) = elim (Bool-cases (is_skipped seen d)) [
  | inl e ↦ rw (dedup-seen seen d ds e) (dedup-dedup seen ds)
  | inr e ↦
      rw (dedup-new seen d ds e, dedup-new seen d (dedup_offsets (d ∷ seen) ds) e)
        (ap (◌∷◌ d) (dedup-dedup (d ∷ seen) ds))
]

abbrev IsOffset : ℤ → Type 0
IsOffset d = IsWithin (negsuc 29) (pos 30) d

new-IsOffset : (seen : List ℤ) (d : ℤ) → is_skipped seen d ≡ false → IsOffset d
new-IsOffset seen d e = ground arith

dedup-All : (seen ds : List ℤ) → All IsOffset (dedup_offsets seen ds)
unfolding dedup_offsets
dedup-All seen [] = tt
dedup-All seen (d ∷ ds) = elim (Bool-cases (is_skipped seen d)) [
  | inl e ↦ rw (dedup-seen seen d ds e) (dedup-All seen ds)
  | inr e ↦ rw (dedup-new seen d ds e) (new-IsOffset seen d e, dedup-All (d ∷ seen) ds)
]

or_default-All : (ds : List ℤ) → All IsOffset ds → All IsOffset (or_default ds)
or_default-All [] h = ground arith
or_default-All (d ∷ ds) h = h

or_default_twice : (ds : List ℤ) → or_default (or_default ds) ≡ or_default ds
or_default_twice [] = refl
or_default_twice (d ∷ ds) = refl

dedup-or_default :
    (ds : List ℤ) → dedup_offsets [] ds ≡ ds → dedup_offsets [] (or_default ds) ≡ or_default ds
unfolding dedup_offsets
dedup-or_default [] h = refl
dedup-or_default (d ∷ ds) h = h

pub normal_offsets_twice : (ds : List ℤ) → normal_offsets (normal_offsets ds) ≡ normal_offsets ds
normal_offsets_twice ds =
    let o = dedup_offsets [] (or_default ds) in
    rw (or_default_twice o, dedup-or_default o (dedup-dedup [] (or_default ds)))
      (or_default_twice o)

pub within_lem : (lo hi def n : ℤ) → IsWithin lo hi def → IsWithin lo hi (within lo hi def n)
within_lem lo hi def n h = ground arith

pub within_twice : (lo hi def n : ℤ) → IsWithin lo hi n → within lo hi def n ≡ n
within_twice lo hi def n h = ground arith

abbrev pub IsWholeMinutes : ℤ → Type 0
IsWholeMinutes n = IsWithin (pos 60) (pos 3600) n × (pos_part n % 60 ≡ 0)

pub capped_lem : (lo hi def n : ℤ) → IsWithin lo hi def → IsWithin lo hi (capped lo hi def n)
capped_lem lo hi def n h = ground arith

pub capped_twice : (lo hi def n : ℤ) → IsWithin lo hi n → capped lo hi def n ≡ n
capped_twice lo hi def n h = ground arith

cut_lem : (n : ℕ) → pos n -ℤ pos (n % 60) ≡ pos (n / 60 * 60)
cut_lem n = omega int_laws

-- From one minute on, what is left of whole minutes is at least one.
whole_minutes_lem :
    (low n : ℤ) → IsWithin (pos 60) (pos 3600) n → whole_minutes low n ≡ pos (pos_part n / 60 * 60)
whole_minutes_lem low (pos n) h = rw (cut_lem n) (ground arith)
whole_minutes_lem low (negsuc n) h = ground arith

pub whole_minutes-IsWholeMinutes :
    (low n : ℤ) → IsWithin (pos 60) (pos 3600) n → IsWholeMinutes (whole_minutes low n)
whole_minutes-IsWholeMinutes low (pos n) h =
    rw (whole_minutes_lem low (pos n) h) ((omega arith, omega arith), omega arith)
whole_minutes-IsWholeMinutes low (negsuc n) h = ground arith

pub whole_minutes_twice : (low n : ℤ) → IsWholeMinutes n → whole_minutes low n ≡ n
whole_minutes_twice low n h = rw (h.1)

-- What holds of normal settings.
abbrev pub IsNormalSchedule : JobScheduleSettings → Type 0
IsNormalSchedule c =
    (All IsOffset c.dunning_offsets × (c.dunning_offsets ≢ []))
    × IsPrinted c.dunning_time
    × IsPrinted c.isolir_notify_time
    × IsPrinted c.invoice_issued_time
    × IsWithin (pos 0) (pos 6) c.weekly_reconcile_weekday
    × IsWithin (pos 0) (pos 23) c.weekly_reconcile_hour
    × IsWithin (pos 1) (pos 28) c.monthly_report_day
    × IsWithin (pos 0) (pos 23) c.monthly_report_hour
    × IsWithin (pos 1) (pos 500) c.notify_batch_size
    × IsWithin (pos 0) (pos 365) c.notif_log_retention_days
    × IsWholeMinutes c.cycle_interval_seconds
    × IsWholeMinutes c.poller_interval_seconds

or_default-filled : (ds : List ℤ) → or_default ds ≢ []
or_default-filled [] = λ e. cc
or_default-filled (d ∷ ds) = λ e. cc

pub normalize_job_schedule_settings-IsNormalSchedule :
    (c : JobScheduleSettings) → IsNormalSchedule (normalize_job_schedule_settings c)
unfolding normalize_job_schedule_settings
normalize_job_schedule_settings-IsNormalSchedule c = (
  (
    or_default-All (dedup_offsets [] (or_default c.dunning_offsets))
        (dedup-All [] (or_default c.dunning_offsets)),
    or_default-filled (dedup_offsets [] (or_default c.dunning_offsets)),
  ),
  normalize_notify_time-IsPrinted c.dunning_time (text "08:00"),
  normalize_notify_time-IsPrinted c.isolir_notify_time (text "08:00"),
  normalize_notify_time-IsPrinted c.invoice_issued_time (text "08:00"),
  within_lem (pos 0) (pos 6) (pos 0) c.weekly_reconcile_weekday (ground arith),
  within_lem (pos 0) (pos 23) (pos 3) c.weekly_reconcile_hour (ground arith),
  within_lem (pos 1) (pos 28) (pos 1) c.monthly_report_day (ground arith),
  within_lem (pos 0) (pos 23) (pos 8) c.monthly_report_hour (ground arith),
  capped_lem (pos 1) (pos 500) (pos 100) c.notify_batch_size (ground arith),
  capped_lem (pos 0) (pos 365) (pos 0) c.notif_log_retention_days (ground arith),
  whole_minutes-IsWholeMinutes (pos 60)
      (capped (pos 60) (pos 3600) (pos 60) c.cycle_interval_seconds)
      (capped_lem (pos 60) (pos 3600) (pos 60) c.cycle_interval_seconds (ground arith)),
  whole_minutes-IsWholeMinutes (pos 300)
      (capped (pos 60) (pos 3600) (pos 300) c.poller_interval_seconds)
      (capped_lem (pos 60) (pos 3600) (pos 300) c.poller_interval_seconds (ground arith)),
)
