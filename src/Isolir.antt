-- ===== src/Isolir.antt =====
-- internal/provision/reconcile.go: the mark ISOLIR on the comment of a suspended account on a router.
-- Only ASCII letters have two cases here.
pub mod Marks
mod Tests
use mathlib.Core.List.{map}
use d5net_billing.Prelude.{
  ℕ, ◌-◌, Bool, true, false, not, ◌&&◌, ◌||◌, List, [], ◌∷◌, ◌++◌, leb, ◌==◌, if◌then◌else◌,
}
use d5net_billing.Prelude.Text.{Text, text, text_eq, trim_space, to_lower}

-- strings.ToUpper
abbrev pub to_upper : Text → Text
to_upper = map λ c. if leb b'a' c && leb c b'z' then c - 32 else c

-- strings.HasPrefix
abbrev pub has_prefix : Text → Text → Bool
has_prefix s [] = true
has_prefix [] (c ∷ t) = false
has_prefix (a ∷ s) (b ∷ t) = a == b && has_prefix s t

-- strings.EqualFold
abbrev pub equal_fold : Text → Text → Bool
equal_fold s t = text_eq (to_lower s) (to_lower t)

-- s[n:]
abbrev pub drop : List ℕ → Text → Text
drop [] s = s
drop (k ∷ ks) [] = []
drop (k ∷ ks) (c ∷ s) = drop ks s

abbrev pub isolir_comment_prefix : Text
isolir_comment_prefix = text "ISOLIR "

-- strings.HasPrefix(upper, "ISOLIR ") || upper == "ISOLIR"
abbrev pub is_marked : Text → Bool
is_marked c = has_prefix (to_upper c) isolir_comment_prefix || text_eq (to_upper c) (text "ISOLIR")

-- WithIsolirComment
unfoldable pub with_isolir_comment : Text → Text
with_isolir_comment comment =
    let c = trim_space comment in
    if text_eq c []
    then trim_space isolir_comment_prefix
    else (if is_marked c then c else isolir_comment_prefix ++ c)

-- WithoutIsolirComment
unfoldable pub without_isolir_comment : Text → Text
without_isolir_comment comment =
    let c = trim_space comment in
    if has_prefix (to_upper c) isolir_comment_prefix
    then trim_space (drop isolir_comment_prefix c)
    else (if text_eq (to_upper c) (text "ISOLIR") then [] else c)

-- SecretLooksIsolir
unfoldable pub secret_looks_isolir : Text → Text → Text → Text → Bool
secret_looks_isolir profile comment isolir_profile plan_profile =
    let p = trim_space profile in
    let iso = trim_space isolir_profile in
    let plan = trim_space plan_profile in
    if is_marked (trim_space comment)
    then true
    else not (text_eq iso [] || text_eq p [])
      && equal_fold p iso
      && not (not (text_eq plan []) && equal_fold iso plan)
