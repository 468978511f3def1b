-- ===== src/Schedule/Clock.antt =====
-- Times of day as text: what is printed is read back, and normal times stay.
use d5net_billing.Prelude.{
  ℕ, ◌≤◌, ◌<◌, ◌≡◌, ◌+◌, ◌*◌, ◌-◌, ◌/◌, ◌%◌, refl, ap, ◌∙◌, true, false, Option, none, some, List,
  [], ◌∷◌, ◌++◌, arith, ◌==◌,
}
use d5net_billing.Prelude.Int.{ℤ, pos}
use d5net_billing.Prelude.Int64.{wrap64, wrap64_id}
use d5net_billing.Prelude.Text.{Text, text}
use d5net_billing.Schedule.{
  atoi_notify, two_digits, parse_notify_time, format_notify_time, normalize_notify_time,
  formatted_or, checked_time, time_of_parts, split_from, split_notify_time, clock_signs, ten_times,
  is_digit,
}

wrap64_small : (n : ℕ) → n < 100 → wrap64 (pos n) ≡ pos n
wrap64_small n h = wrap64_id (pos n) (omega arith, omega arith)

IsDigit-of : (n : ℕ) → n < 10 → is_digit (b'0' + n) ≡ true
IsDigit-of n h = ground arith

two_digits_lem : (n : ℕ) → n < 100 → two_digits n ≡ (b'0' + n / 10) ∷ (b'0' + n % 10) ∷ []
two_digits_lem n h = ground arith

not_colon : (a : ℕ) → a < 10 → ((b'0' + a) == b':') ≡ false
not_colon a h = ground arith

ten_times_lem : (n d : ℕ) → ten_times (pos n) d ≡ pos (n * 10 + d)
ten_times_lem n d = ground arith

ten_wrapped : (n d : ℕ) → n * 10 + d < 100 → wrap64 (ten_times (pos n) d) ≡ pos (n * 10 + d)
ten_wrapped n d h = rw (ten_times_lem n d) (wrap64_small (n * 10 + d) h)

first_digit : (a : ℕ) → a < 10 → wrap64 (ten_times (pos 0) a) ≡ pos a
first_digit a h = ten_wrapped 0 a (omega arith) ∙ ap pos (omega arith)

digit_value : (a : ℕ) → b'0' + a - b'0' ≡ a
digit_value a = omega arith

-- Two digits are read as their number.
atoi_notify_two :
    (a b : ℕ)
    → a < 10
    → b < 10
    → atoi_notify ((b'0' + a) ∷ (b'0' + b) ∷ []) ≡ some (pos (a * 10 + b))
atoi_notify_two a b ha hb = rw (
  IsDigit-of a ha,
  IsDigit-of b hb,
  digit_value a,
  digit_value b,
  first_digit a ha,
  ten_wrapped a b (omega arith),
)

signs_lem :
    (a b c d : ℕ)
    → a < 10
    → b < 10
    → c < 10
    → d < 10
    → clock_signs ((b'0' + a) ∷ (b'0' + b) ∷ b':' ∷ (b'0' + c) ∷ (b'0' + d) ∷ [])
      ≡ (b'0' + a) ∷ (b'0' + b) ∷ b':' ∷ (b'0' + c) ∷ (b'0' + d) ∷ []
signs_lem a b c d ha hb hc hd =
    rw (IsDigit-of a ha, IsDigit-of b hb, IsDigit-of c hc, IsDigit-of d hd)

split_sign :
    (cur : Text) (c : ℕ) (s : Text)
    → (c == b':') ≡ false
    → split_from cur (c ∷ s) ≡ split_from (cur ++ (c ∷ [])) s
split_sign cur c s e = rw (split_from, e)

split_two :
    (a b : ℕ) (s : Text)
    → a < 10
    → b < 10
    → split_from [] ((b'0' + a) ∷ (b'0' + b) ∷ s) ≡ split_from ((b'0' + a) ∷ (b'0' + b) ∷ []) s
split_two a b s ha hb =
    split_sign [] (b'0' + a) ((b'0' + b) ∷ s) (not_colon a ha)
    ∙ split_sign ((b'0' + a) ∷ []) (b'0' + b) s (not_colon b hb)

split_lem :
    (a b c d : ℕ)
    → a < 10
    → b < 10
    → c < 10
    → d < 10
    → split_from [] ((b'0' + a) ∷ (b'0' + b) ∷ b':' ∷ (b'0' + c) ∷ (b'0' + d) ∷ [])
      ≡ ((b'0' + a) ∷ (b'0' + b) ∷ []) ∷ ((b'0' + c) ∷ (b'0' + d) ∷ []) ∷ []
split_lem a b c d ha hb hc hd =
    split_two a b (b':' ∷ (b'0' + c) ∷ (b'0' + d) ∷ []) ha hb
    ∙ ap (◌∷◌ ((b'0' + a) ∷ (b'0' + b) ∷ [])) (split_two c d [] hc hd)

checked_lem : (h m : ℕ) → h ≤ 23 → m ≤ 59 → checked_time (some (pos h)) (some (pos m)) ≡ some (h, m)
checked_lem h m hh hm = ground arith

div_mod : (n : ℕ) → n / 10 * 10 + n % 10 ≡ n
div_mod n = omega arith

-- Reading the print of an hour of at most 23 and a minute of at most 59 gives back the two.
pub parse_notify_time-format_notify_time :
    (h m : ℕ) → h ≤ 23 → m ≤ 59 → parse_notify_time (format_notify_time h m) ≡ some (h, m)
unfolding parse_notify_time format_notify_time
parse_notify_time-format_notify_time h m hh hm =
    rw
      (
        two_digits_lem h (omega arith),
        two_digits_lem m (omega arith),
        signs_lem (h / 10) (h % 10) (m / 10) (m % 10) (omega arith) (omega arith) (omega arith)
            (omega arith),
        split_lem (h / 10) (h % 10) (m / 10) (m % 10) (omega arith) (omega arith) (omega arith)
            (omega arith),
        atoi_notify_two (h / 10) (h % 10) (omega arith) (omega arith),
        atoi_notify_two (m / 10) (m % 10) (omega arith) (omega arith),
        div_mod h,
        div_mod m,
      )
      (checked_lem h m hh hm)

abbrev IsTime : ℕ × ℕ → Type 0
IsTime x = (x.0 ≤ 23) × (x.1 ≤ 59)

checked-IsTime : (h m : Option ℤ) (x : ℕ × ℕ) → checked_time h m ≡ some x → IsTime x
checked-IsTime (some h) (some m) x e = ground arith
checked-IsTime none m x e = cc
checked-IsTime (some h) none x e = cc

parts-IsTime : (ps : List Text) (x : ℕ × ℕ) → time_of_parts ps ≡ some x → IsTime x
parts-IsTime (h ∷ m ∷ []) x e = checked-IsTime (atoi_notify h) (atoi_notify m) x e
parts-IsTime [] x e = cc
parts-IsTime (h ∷ []) x e = cc
parts-IsTime (h ∷ m ∷ s ∷ ps) x e = cc

pub parse_notify_time-IsTime : (raw : Text) (x : ℕ × ℕ) → parse_notify_time raw ≡ some x → IsTime x
unfolding parse_notify_time
parse_notify_time-IsTime raw x e = parts-IsTime (split_notify_time (clock_signs raw)) x e

-- A time that is normal already: the print of an hour and a minute.
abbrev pub IsPrinted : Text → Type 0
IsPrinted s = (x : ℕ × ℕ) × (IsTime x × (s ≡ format_notify_time (x.0) (x.1)))

formatted_or-IsPrinted :
    (s : Text) (o : Option (ℕ × ℕ))
    → IsPrinted s
    → ((x : ℕ × ℕ) → o ≡ some x → IsTime x)
    → IsPrinted (formatted_or s o)
formatted_or-IsPrinted s none h k = h
formatted_or-IsPrinted s (some x) h k = (x, (k x refl, refl))

pub eight-IsPrinted : IsPrinted (text "08:00")
unfolding format_notify_time
eight-IsPrinted = ((8, 0), ((omega arith, omega arith), refl))

pub normalize_notify_time-IsPrinted :
    (raw fallback : Text) → IsPrinted (normalize_notify_time raw fallback)
unfolding normalize_notify_time
normalize_notify_time-IsPrinted raw fallback =
    formatted_or-IsPrinted (formatted_or (text "08:00") (parse_notify_time fallback))
      (parse_notify_time raw)
      (formatted_or-IsPrinted (text "08:00") (parse_notify_time fallback) eight-IsPrinted
        (parse_notify_time-IsTime fallback))
      (parse_notify_time-IsTime raw)

pub normalize_notify_time-printed :
    (s fallback : Text) → IsPrinted s → normalize_notify_time s fallback ≡ s
unfolding normalize_notify_time
normalize_notify_time-printed s fallback ((h, m), ((hh, hm), e)) =
    rw e (rw (parse_notify_time-format_notify_time h m hh hm))

-- Normalising a time twice, with whatever fallbacks, is normalising it once.
pub normalize_notify_time_twice :
    (raw fallback other : Text)
    → normalize_notify_time (normalize_notify_time raw fallback) other
      ≡ normalize_notify_time raw fallback
normalize_notify_time_twice raw fallback other =
    normalize_notify_time-printed (normalize_notify_time raw fallback) other
      (normalize_notify_time-IsPrinted raw fallback)
