-- ===== src/Methods/Tests.antt =====
-- A run, and the theorem about methods at it.
use d5net_billing.Prelude.{◌≡◌, refl}
use d5net_billing.Prelude.Text.{text, trim_space, to_lower}
use d5net_billing.Methods.{normalize_method, named, method_names, normalize_method-named}

kasir_is_tunai : normalize_method (text " Kasir ") ≡ text "tunai"
unfolding normalize_method trim_space
kasir_is_tunai = refl

normalize_method-named_example :
    (normalize_method (text " QR ") ≡ named method_names (to_lower (trim_space (text " QR "))))
    × (normalize_method (normalize_method (text " QR ")) ≡ normalize_method (text " QR "))
normalize_method-named_example = normalize_method-named (text " QR ")
