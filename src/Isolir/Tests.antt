-- ===== src/Isolir/Tests.antt =====
-- Marks on sample comments, and the theorem at one.
use d5net_billing.Prelude.{◌≡◌, refl, true, false, []}
use d5net_billing.Prelude.Text.{text, trim_space}
use d5net_billing.Isolir.{with_isolir_comment, without_isolir_comment, secret_looks_isolir}
use d5net_billing.Isolir.Marks.{with_isolir_comment_lem}

marks : with_isolir_comment (text " Acme:K1 Budi ") ≡ text "ISOLIR Acme:K1 Budi"
unfolding with_isolir_comment trim_space
marks = refl

marked_already : with_isolir_comment (text "isolir Acme:K1") ≡ text "isolir Acme:K1"
unfolding with_isolir_comment trim_space
marked_already = refl

unmarks : without_isolir_comment (text "ISOLIR Acme:K1 Budi") ≡ text "Acme:K1 Budi"
unfolding without_isolir_comment trim_space
unmarks = refl

same_profile :
    secret_looks_isolir (text "isolir") (text "Acme:K1") (text "Isolir") (text "ISOLIR") ≡ false
unfolding secret_looks_isolir trim_space
same_profile = refl

with_isolir_comment_lem_example :
    let c = text " Acme:K1 Budi " in
    (secret_looks_isolir [] (with_isolir_comment c) (text "isolir") (text "10Mbps") ≡ true)
    × (without_isolir_comment (with_isolir_comment c) ≡ without_isolir_comment c)
    × (with_isolir_comment (with_isolir_comment c) ≡ with_isolir_comment c)
with_isolir_comment_lem_example =
    with_isolir_comment_lem (text " Acme:K1 Budi ") [] (text "isolir") (text "10Mbps")
