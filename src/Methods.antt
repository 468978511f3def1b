-- ===== src/Methods.antt =====
-- internal/payment/method.go: the method that is stored for a payment.
mod Tests
use d5net_billing.Prelude.{
  ◌≡◌, ◌∙◌, ◌⊎◌, refl, ap, Bool, true, false, ◌||◌, List, [], ◌∷◌, inl, inr, Bool-cases, arith,
  if◌then◌else◌,
}
use d5net_billing.Prelude.Text.{Text, text, text_eq, trim_space, to_lower}
use d5net_billing.Prelude.Text.Trim.{to_lower-trim_space_self}

abbrev is_cash : Text → Bool
is_cash p =
    text_eq p (text "manual")
    || text_eq p (text "tunai")
    || text_eq p (text "cash")
    || text_eq p (text "kasir")

abbrev is_qris : Text → Bool
is_qris p = text_eq p (text "qris") || text_eq p (text "qr")

abbrev is_duitku : Text → Bool
is_duitku p =
    text_eq p (text "duitku") || text_eq p (text "duitku_pop") || text_eq p (text "duitkupop")

abbrev is_transfer : Text → Bool
is_transfer p = text_eq p (text "transfer") || text_eq p (text "bank") || text_eq p (text "va")

-- The switch of MethodFromProvider.
abbrev pub method_of : Text → Text
method_of p =
    if text_eq p []
    then []
    else (if is_cash p
        then text "tunai"
        else (if is_qris p
            then text "qris"
            else (if is_duitku p
                then text "duitku"
                else (if text_eq p (text "doku")
                    then text "doku"
                    else (if is_transfer p then text "transfer" else p)))))

-- MethodFromProvider
unfoldable pub method_from_provider : Text → Text
method_from_provider provider = method_of (to_lower (trim_space provider))

-- NormalizeMethod
unfoldable pub normalize_method : Text → Text
unfolding method_from_provider
normalize_method method = method_from_provider method

-- A name that stays as it is.
abbrev IsFixed : Text → Type 0
IsFixed s = method_of (to_lower (trim_space s)) ≡ s

-- The switch gives a name of its own, or what it was asked for.
method_of-cases : (p : Text) → IsFixed (method_of p) ⊎ (method_of p ≡ p)
unfolding trim_space
method_of-cases p = elim (Bool-cases (text_eq p [])) [
  | inl e ↦ inl (rw e refl)
  | inr e1 ↦ elim (Bool-cases (is_cash p)) [
    | inl e ↦ inl (rw (e1, e) refl)
    | inr e2 ↦ elim (Bool-cases (is_qris p)) [
      | inl e ↦ inl (rw (e1, e2, e) refl)
      | inr e3 ↦ elim (Bool-cases (is_duitku p)) [
        | inl e ↦ inl (rw (e1, e2, e3, e) refl)
        | inr e4 ↦ elim (Bool-cases (text_eq p (text "doku"))) [
          | inl e ↦ inl (rw (e1, e2, e3, e4, e) refl)
          | inr e5 ↦ elim (Bool-cases (is_transfer p)) [
            | inl e ↦ inl (rw (e1, e2, e3, e4, e5, e) refl)
            | inr e6 ↦ inr (rw (e1, e2, e3, e4, e5, e6) refl)
          ]
        ]
      ]
    ]
  ]
]

normalize_method_twice : (s : Text) → normalize_method (normalize_method s) ≡ normalize_method s
unfolding normalize_method method_from_provider
normalize_method_twice s =
    let p = to_lower (trim_space s) in
    elim (method_of-cases p) [
      | inl fixed ↦ fixed
      | inr q ↦
          ap (λ x. method_of (to_lower (trim_space x))) q
          ∙ ap method_of (to_lower-trim_space_self s)
    ]

-- The names in use, with the method that each stands for.
abbrev pub method_names : List (Text × Text)
method_names =
    ([], [])
    ∷ (text "manual", text "tunai")
    ∷ (text "tunai", text "tunai")
    ∷ (text "cash", text "tunai")
    ∷ (text "kasir", text "tunai")
    ∷ (text "qris", text "qris")
    ∷ (text "qr", text "qris")
    ∷ (text "duitku", text "duitku")
    ∷ (text "duitku_pop", text "duitku")
    ∷ (text "duitkupop", text "duitku")
    ∷ (text "doku", text "doku")
    ∷ (text "transfer", text "transfer")
    ∷ (text "bank", text "transfer")
    ∷ (text "va", text "transfer")
    ∷ []

-- A name that is not in the table stands for itself.
abbrev pub named : List (Text × Text) → Text → Text
named [] p = p
named ((alias, method) ∷ rest) p = if text_eq p alias then method else named rest p

method_of-named : (p : Text) → method_of p ≡ named method_names p
method_of-named p = ground arith

-- NormalizeMethod gives the method that the table has for the trimmed name in lower case, and that
-- name itself where the table has none; a normalised method stays as it is.
pub normalize_method-named :
    (s : Text)
    → (normalize_method s ≡ named method_names (to_lower (trim_space s)))
      × (normalize_method (normalize_method s) ≡ normalize_method s)
unfolding normalize_method method_from_provider
normalize_method-named s = (method_of-named (to_lower (trim_space s)), normalize_method_twice s)
