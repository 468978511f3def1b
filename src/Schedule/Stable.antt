-- ===== src/Schedule/Stable.antt =====
-- Normalised settings stay as they are when they are normalised again.
use d5net_billing.Prelude.{◌≡◌, arith}
use d5net_billing.Prelude.Int.{ℤ, pos}
use d5net_billing.Prelude.Text.{text}
use d5net_billing.Schedule.{
  JobScheduleSettings, within, capped, whole_minutes, normalize_job_schedule_settings,
}
use d5net_billing.Schedule.Clock.{normalize_notify_time_twice}
use d5net_billing.Schedule.Settings.{
  IsNormalSchedule, IsWithin, normal_offsets_twice, within_lem, within_twice, capped_lem,
  capped_twice, whole_minutes-IsWholeMinutes, whole_minutes_twice,
  normalize_job_schedule_settings-IsNormalSchedule,
}

within-within :
    (lo hi def n : ℤ)
    → IsWithin lo hi def
    → within lo hi def (within lo hi def n) ≡ within lo hi def n
within-within lo hi def n h = within_twice lo hi def (within lo hi def n) (within_lem lo hi def n h)

capped-capped :
    (lo hi def n : ℤ)
    → IsWithin lo hi def
    → capped lo hi def (capped lo hi def n) ≡ capped lo hi def n
capped-capped lo hi def n h = capped_twice lo hi def (capped lo hi def n) (capped_lem lo hi def n h)

interval : ℤ → ℤ → ℤ
interval low n = whole_minutes low (capped (pos 60) (pos 3600) low n)

interval_twice :
    (low n : ℤ) → IsWithin (pos 60) (pos 3600) low → interval low (interval low n) ≡ interval low n
unfolding interval
interval_twice low n h =
    let kept = capped_lem (pos 60) (pos 3600) low n h in
    let whole = whole_minutes-IsWholeMinutes low (capped (pos 60) (pos 3600) low n) kept in
    rw
      (capped_twice (pos 60) (pos 3600) low (whole_minutes low (capped (pos 60) (pos 3600) low n))
        (whole.0))
      (whole_minutes_twice low (whole_minutes low (capped (pos 60) (pos 3600) low n)) whole)

values_twice :
    (c : JobScheduleSettings)
    → normalize_job_schedule_settings (normalize_job_schedule_settings c)
      ≡ normalize_job_schedule_settings c
unfolding normalize_job_schedule_settings interval
values_twice c =
    let eight = text "08:00" in
    λ i. record (normalize_job_schedule_settings c) {
      dunning_offsets = normal_offsets_twice c.dunning_offsets i;
      dunning_time = normalize_notify_time_twice c.dunning_time eight eight i;
      isolir_notify_time = normalize_notify_time_twice c.isolir_notify_time eight eight i;
      invoice_issued_time = normalize_notify_time_twice c.invoice_issued_time eight eight i;
      weekly_reconcile_weekday =
          within-within (pos 0) (pos 6) (pos 0) c.weekly_reconcile_weekday (ground arith) i;
      weekly_reconcile_hour =
          within-within (pos 0) (pos 23) (pos 3) c.weekly_reconcile_hour (ground arith) i;
      monthly_report_day =
          within-within (pos 1) (pos 28) (pos 1) c.monthly_report_day (ground arith) i;
      monthly_report_hour =
          within-within (pos 0) (pos 23) (pos 8) c.monthly_report_hour (ground arith) i;
      notify_batch_size =
          capped-capped (pos 1) (pos 500) (pos 100) c.notify_batch_size (ground arith) i;
      notif_log_retention_days =
          capped-capped (pos 0) (pos 365) (pos 0) c.notif_log_retention_days (ground arith) i;
      cycle_interval_seconds = interval_twice (pos 60) c.cycle_interval_seconds (ground arith) i;
      poller_interval_seconds = interval_twice (pos 300) c.poller_interval_seconds (ground arith) i;
    }

-- Every value of settings is in its range, and normalising them changes nothing.
abbrev pub IsSettled : JobScheduleSettings → Type 0
IsSettled c = IsNormalSchedule c × (normalize_job_schedule_settings c ≡ c)

-- Normalised settings have every value in its range, and normalising them again changes nothing.
pub normalize_job_schedule_settings-IsSettled :
    (c : JobScheduleSettings) → IsSettled (normalize_job_schedule_settings c)
normalize_job_schedule_settings-IsSettled c =
    (normalize_job_schedule_settings-IsNormalSchedule c, values_twice c)
