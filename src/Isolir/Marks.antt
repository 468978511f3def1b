-- ===== src/Isolir/Marks.antt =====
-- Marking a comment: the mark is seen, is taken off again, and is set once.
use d5net_billing.Prelude.{
  ◌≡◌, refl, sym, ap, ◌∙◌, Bool, true, false, ◌||◌, [], ◌∷◌, ◌++◌, inl, inr, Bool-cases,
}
use d5net_billing.Prelude.Text.{Text, text, text_eq, trim_space}
use d5net_billing.Prelude.Text.Trim.{trim_space_twice, trim_space-append}
use d5net_billing.Isolir.{
  to_upper, has_prefix, is_marked, isolir_comment_prefix, with_isolir_comment,
  without_isolir_comment, secret_looks_isolir,
}

seen :
    (m : Text)
    → trim_space m ≡ m
    → is_marked m ≡ true
    → (profile iso plan : Text) → secret_looks_isolir profile m iso plan ≡ true
unfolding secret_looks_isolir
seen m trimmed marked profile iso plan = rw (trimmed, marked)

again :
    (m : Text)
    → trim_space m ≡ m
    → is_marked m ≡ true
    → text_eq m [] ≡ false
    → with_isolir_comment m ≡ m
unfolding with_isolir_comment
again m trimmed marked full = rw (trimmed, full, marked)

eq_empty : (s : Text) → text_eq s [] ≡ true → s ≡ []
eq_empty [] h = refl
eq_empty (c ∷ s) h = cc

not_empty : (s : Text) → text_eq s [] ≡ false → s ≡ [] → ⊥
not_empty [] h e = cc
not_empty (c ∷ s) h e = cc

with_empty : (c : Text) → text_eq (trim_space c) [] ≡ true → with_isolir_comment c ≡ text "ISOLIR"
unfolding with_isolir_comment trim_space
with_empty c h = rw h

without_empty :
    (c : Text)
    → text_eq (trim_space c) [] ≡ true
    → without_isolir_comment (text "ISOLIR") ≡ without_isolir_comment c
unfolding without_isolir_comment trim_space
without_empty c h = rw (eq_empty (trim_space c) h)

with_marked :
    (c : Text)
    → text_eq (trim_space c) [] ≡ false
    → is_marked (trim_space c) ≡ true
    → with_isolir_comment c ≡ trim_space c
unfolding with_isolir_comment
with_marked c full marked = rw (full, marked)

with_plain :
    (c : Text)
    → text_eq (trim_space c) [] ≡ false
    → is_marked (trim_space c) ≡ false
    → with_isolir_comment c ≡ isolir_comment_prefix ++ trim_space c
unfolding with_isolir_comment
with_plain c full plain = rw (full, plain)

without_trimmed : (c : Text) → without_isolir_comment (trim_space c) ≡ without_isolir_comment c
unfolding without_isolir_comment
without_trimmed c = rw (trim_space_twice c)

prefixed-trim :
    (c : Text)
    → text_eq (trim_space c) [] ≡ false
    → trim_space (isolir_comment_prefix ++ trim_space c) ≡ isolir_comment_prefix ++ trim_space c
prefixed-trim c full = trim_space-append b'I' (text "SOLIR ") c refl (not_empty (trim_space c) full)

neither : (x y : Bool) → (x || y) ≡ false → (x ≡ false) × (y ≡ false)
neither false false h = (refl, refl)
neither false true h = cc
neither true y h = cc

without_prefixed :
    (c : Text)
    → text_eq (trim_space c) [] ≡ false
    → is_marked (trim_space c) ≡ false
    → without_isolir_comment (isolir_comment_prefix ++ trim_space c) ≡ without_isolir_comment c
unfolding without_isolir_comment
without_prefixed c full plain =
    let (head, alone) =
      neither (has_prefix (to_upper (trim_space c)) isolir_comment_prefix)
        (text_eq (to_upper (trim_space c)) (text "ISOLIR")) plain in
    rw (prefixed-trim c full, trim_space_twice c, head, alone)

-- The mark ISOLIR alone, a comment with it, and a comment that gets it.
with-cases :
    (c : Text) (m : Text)
    → trim_space m ≡ m
    → is_marked m ≡ true
    → with_isolir_comment c ≡ m
    → without_isolir_comment m ≡ without_isolir_comment c
    → text_eq m [] ≡ false
    → (profile iso plan : Text)
    → (secret_looks_isolir profile (with_isolir_comment c) iso plan ≡ true)
      × (without_isolir_comment (with_isolir_comment c) ≡ without_isolir_comment c)
      × (with_isolir_comment (with_isolir_comment c) ≡ with_isolir_comment c)
with-cases c m trimmed marked is without full profile iso plan = (
  rw is (seen m trimmed marked profile iso plan),
  ap without_isolir_comment is ∙ without,
  ap with_isolir_comment is ∙ again m trimmed marked full ∙ sym is,
)

-- Whatever the comment, the account with the marked comment looks suspended on any profile, taking
-- the mark off again gives what taking it off the comment gives, and marking twice is marking once.
pub with_isolir_comment_lem :
    (c profile iso plan : Text)
    → (secret_looks_isolir profile (with_isolir_comment c) iso plan ≡ true)
      × (without_isolir_comment (with_isolir_comment c) ≡ without_isolir_comment c)
      × (with_isolir_comment (with_isolir_comment c) ≡ with_isolir_comment c)
unfolding trim_space
with_isolir_comment_lem c profile iso plan =
    let s = trim_space c in
    elim (Bool-cases (text_eq s [])) [
      | inl empty ↦
          with-cases c (text "ISOLIR") refl refl (with_empty c empty) (without_empty c empty) refl
            profile iso plan
      | inr full ↦ elim (Bool-cases (is_marked s)) [
        | inl marked ↦
            with-cases c s (trim_space_twice c) marked (with_marked c full marked)
              (without_trimmed c) full profile iso plan
        | inr plain ↦
            with-cases c (isolir_comment_prefix ++ s) (prefixed-trim c full) refl
              (with_plain c full plain) (without_prefixed c full plain) refl profile iso plan
      ]
    ]
