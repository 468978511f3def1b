-- ===== src/Schedule.antt =====
-- internal/store/jobs_settings.go: when the jobs of a tenant run. A Go `int` has 64 bits.
pub mod Clock
pub mod Settings
pub mod Stable
mod Tests
use d5net_billing.Prelude.{
  ℕ, ◌+◌, ◌*◌, ◌/◌, ◌%◌, ◌-◌, Bool, true, false, not, ◌&&◌, ◌||◌, Option, none, some, List, [], ◌∷◌,
  ◌++◌, ltb, leb, ◌==◌, any, if◌then◌else◌,
}
use d5net_billing.Prelude.Int.{ℤ, pos, negsuc, pos_part, neg_part, sub_ℕ, ◌-ℤ◌, ltb_ℤ, eqb_ℤ}
use d5net_billing.Prelude.Int64.{wrap64}
use d5net_billing.Prelude.Text.{Text, text}

abbrev pub is_digit : ℕ → Bool
is_digit c = leb b'0' c && leb c b'9'

-- The first loop of ParseNotifyTime: the digits, and a colon for each colon or point.
abbrev pub clock_signs : Text → Text
clock_signs [] = []
clock_signs (c ∷ s) =
    let rest = clock_signs s in
    if is_digit c then c ∷ rest else (if c == b':' || c == b'.' then b':' ∷ rest else rest)

-- splitNotifyTime, with the part read so far.
abbrev pub split_from : Text → Text → List Text
split_from cur [] = cur ∷ []
split_from cur (c ∷ s) = elim (c == b':') [
  | true ↦ cur ∷ split_from [] s
  | false ↦ split_from (cur ++ (c ∷ [])) s
]

abbrev pub split_notify_time : Text → List Text
split_notify_time s = split_from [] s

abbrev pub ten_times : ℤ → ℕ → ℤ
ten_times n d = sub_ℕ (pos_part n * 10 + d) (neg_part n * 10)

abbrev pub atoi_from : ℤ → Text → Option ℤ
atoi_from n [] = some n
atoi_from n (c ∷ s) = if is_digit c then atoi_from (wrap64 (ten_times n (c - b'0'))) s else none

-- atoiNotify
abbrev pub atoi_notify : Text → Option ℤ
atoi_notify [] = none
atoi_notify (c ∷ s) = atoi_from (pos 0) (c ∷ s)

abbrev pub out_of : ℤ → ℤ → ℤ → Bool
out_of lo hi n = ltb_ℤ n lo || ltb_ℤ hi n

abbrev pub checked_time : Option ℤ → Option ℤ → Option (ℕ × ℕ)
checked_time (some h) (some m) =
    if out_of (pos 0) (pos 23) h || out_of (pos 0) (pos 59) m
    then none
    else some (pos_part h, pos_part m)
checked_time _ _ = none

abbrev pub time_of_parts : List Text → Option (ℕ × ℕ)
time_of_parts (h ∷ m ∷ []) = checked_time (atoi_notify h) (atoi_notify m)
time_of_parts _ = none

-- ParseNotifyTime; `none` is its ok = false.
unfoldable pub parse_notify_time : Text → Option (ℕ × ℕ)
parse_notify_time raw = time_of_parts (split_notify_time (clock_signs raw))

-- twoDigits
abbrev pub two_digits : ℕ → Text
two_digits n = if ltb n 10 then b'0' ∷ (b'0' + n) ∷ [] else (b'0' + n / 10) ∷ (b'0' + n % 10) ∷ []

-- formatNotifyTime
unfoldable pub format_notify_time : ℕ → ℕ → Text
format_notify_time h m = two_digits h ++ (b':' ∷ two_digits m)

abbrev pub formatted_or : Text → Option (ℕ × ℕ) → Text
formatted_or s none = s
formatted_or s (some (h, m)) = format_notify_time h m

-- NormalizeNotifyTime
unfoldable pub normalize_notify_time : Text → Text → Text
unfolding format_notify_time parse_notify_time
normalize_notify_time raw fallback =
    formatted_or (formatted_or (text "08:00") (parse_notify_time fallback)) (parse_notify_time raw)

pub record JobScheduleSettings : Type 0 where
  pub billing_enabled : Bool
  pub isolir_enabled : Bool
  pub dunning_enabled : Bool
  pub dunning_offsets : List ℤ
  pub dunning_time : Text
  pub isolir_notify_time : Text
  pub invoice_issued_time : Text
  pub odp_outage_enabled : Bool
  pub weekly_reconcile_enabled : Bool
  pub weekly_reconcile_weekday : ℤ
  pub weekly_reconcile_hour : ℤ
  pub monthly_report_enabled : Bool
  pub monthly_report_day : ℤ
  pub monthly_report_hour : ℤ
  pub notify_batch_size : ℤ
  pub notif_log_retention_days : ℤ
  pub cycle_interval_seconds : ℤ
  pub poller_interval_seconds : ℤ

-- -7, -3, 0, 1, 3
abbrev pub default_offsets : List ℤ
default_offsets = negsuc 6 ∷ negsuc 2 ∷ pos 0 ∷ pos 1 ∷ pos 3 ∷ []

-- DefaultJobScheduleSettings
abbrev pub default_job_schedule_settings : JobScheduleSettings
default_job_schedule_settings = record {
  billing_enabled = true;
  isolir_enabled = true;
  dunning_enabled = true;
  dunning_offsets = default_offsets;
  dunning_time = text "08:00";
  isolir_notify_time = text "08:00";
  invoice_issued_time = text "08:00";
  odp_outage_enabled = false;
  weekly_reconcile_enabled = true;
  weekly_reconcile_weekday = pos 0;
  weekly_reconcile_hour = pos 3;
  monthly_report_enabled = true;
  monthly_report_day = pos 1;
  monthly_report_hour = pos 8;
  notify_batch_size = pos 100;
  notif_log_retention_days = pos 0;
  cycle_interval_seconds = pos 60;
  poller_interval_seconds = pos 300;
}

-- `if n < lo || n > hi { n = def }`
abbrev pub within : ℤ → ℤ → ℤ → ℤ → ℤ
within lo hi def n = if out_of lo hi n then def else n

-- `if n < lo { n = def }; if n > hi { n = hi }`
abbrev pub capped : ℤ → ℤ → ℤ → ℤ → ℤ
capped lo hi def n =
    let raised = if ltb_ℤ n lo then def else n in if ltb_ℤ hi raised then hi else raised

-- Down to whole minutes, of at least 60 seconds by now.
abbrev pub whole_minutes : ℤ → ℤ → ℤ
whole_minutes low n =
    let rest = pos_part n % 60 in
    let cut = n -ℤ pos rest in if rest == 0 then n else (if ltb_ℤ cut (pos 60) then low else cut)

abbrev pub or_default : List ℤ → List ℤ
or_default [] = default_offsets
or_default (d ∷ ds) = d ∷ ds

-- The loop over the dunning offsets, with those it has seen.
unfoldable pub dedup_offsets : List ℤ → List ℤ → List ℤ
dedup_offsets seen [] = []
dedup_offsets seen (d ∷ ds) = elim (out_of (negsuc 29) (pos 30) d || any (eqb_ℤ d) seen) [
  | true ↦ dedup_offsets seen ds
  | false ↦ d ∷ dedup_offsets (d ∷ seen) ds
]

abbrev pub normal_offsets : List ℤ → List ℤ
normal_offsets ds = or_default (dedup_offsets [] (or_default ds))

-- NormalizeJobScheduleSettings
unfoldable pub normalize_job_schedule_settings : JobScheduleSettings → JobScheduleSettings
normalize_job_schedule_settings c = record c {
  dunning_offsets = normal_offsets c.dunning_offsets;
  dunning_time = normalize_notify_time c.dunning_time (text "08:00");
  isolir_notify_time = normalize_notify_time c.isolir_notify_time (text "08:00");
  invoice_issued_time = normalize_notify_time c.invoice_issued_time (text "08:00");
  odp_outage_enabled = false;
  weekly_reconcile_weekday = within (pos 0) (pos 6) (pos 0) c.weekly_reconcile_weekday;
  weekly_reconcile_hour = within (pos 0) (pos 23) (pos 3) c.weekly_reconcile_hour;
  monthly_report_day = within (pos 1) (pos 28) (pos 1) c.monthly_report_day;
  monthly_report_hour = within (pos 0) (pos 23) (pos 8) c.monthly_report_hour;
  notify_batch_size = capped (pos 1) (pos 500) (pos 100) c.notify_batch_size;
  notif_log_retention_days = capped (pos 0) (pos 365) (pos 0) c.notif_log_retention_days;
  cycle_interval_seconds =
      whole_minutes (pos 60) (capped (pos 60) (pos 3600) (pos 60) c.cycle_interval_seconds);
  poller_interval_seconds =
      whole_minutes (pos 300) (capped (pos 60) (pos 3600) (pos 300) c.poller_interval_seconds);
}
