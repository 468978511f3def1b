-- ===== src/Schedule/Tests.antt =====
-- The readings of some times of day, and the results at concrete values. A time of more than nineteen
-- digits wraps into the range; four digits without a sign between them are not read.
use d5net_billing.Prelude.{◌≡◌, refl, some, none, [], ◌∷◌, arith}
use d5net_billing.Prelude.Int.{pos, negsuc}
use d5net_billing.Prelude.Int64.{wrap64}
use d5net_billing.Prelude.Text.{text}
use d5net_billing.Schedule.{
  JobScheduleSettings, parse_notify_time, format_notify_time, normalize_notify_time, dedup_offsets,
  normalize_job_schedule_settings, default_job_schedule_settings,
}
use d5net_billing.Schedule.Clock.{parse_notify_time-format_notify_time}
use d5net_billing.Schedule.Stable.{IsSettled, normalize_job_schedule_settings-IsSettled}

reads_afternoon : parse_notify_time (text "19.05 WIB") ≡ some (19, 5)
unfolding parse_notify_time wrap64
reads_afternoon = refl

reads_no_sign : parse_notify_time (text "0800") ≡ none
unfolding parse_notify_time
reads_no_sign = refl

reads_wrapped : parse_notify_time (text "18446744073709551617:00") ≡ some (1, 0)
unfolding parse_notify_time wrap64
reads_wrapped = refl

falls_back : normalize_notify_time (text "25:00") (text "9:30") ≡ text "09:30"
unfolding normalize_notify_time parse_notify_time format_notify_time wrap64
falls_back = refl

drops_repeats : dedup_offsets [] (pos 3 ∷ negsuc 30 ∷ pos 3 ∷ pos 0 ∷ []) ≡ pos 3 ∷ pos 0 ∷ []
unfolding dedup_offsets
drops_repeats = refl

abbrev odd_settings : JobScheduleSettings
odd_settings = record default_job_schedule_settings {
  dunning_offsets = pos 3 ∷ pos 31 ∷ pos 3 ∷ [];
  dunning_time = text "7.5";
  cycle_interval_seconds = pos 119;
  poller_interval_seconds = negsuc 0;
}

parse_notify_time-format_notify_time_example :
    parse_notify_time (format_notify_time 19 5) ≡ some (19, 5)
parse_notify_time-format_notify_time_example =
    parse_notify_time-format_notify_time 19 5 (omega arith) (omega arith)

normalize_job_schedule_settings-IsSettled_example :
    IsSettled (normalize_job_schedule_settings odd_settings)
normalize_job_schedule_settings-IsSettled_example =
    normalize_job_schedule_settings-IsSettled odd_settings
