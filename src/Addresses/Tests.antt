-- ===== src/Addresses/Tests.antt =====
-- A run, and the theorem about addresses at it.
use d5net_billing.Prelude.{◌≡◌, refl, arith, [], ◌∷◌}
use d5net_billing.Addresses.{inc_ip, dec_ip, dec_ip-inc_ip}

carries : inc_ip (10 ∷ 0 ∷ 0 ∷ 255 ∷ []) ≡ 10 ∷ 0 ∷ 1 ∷ 0 ∷ []
unfolding inc_ip
carries = refl

dec_ip-inc_ip_example : dec_ip (inc_ip (10 ∷ 0 ∷ 0 ∷ 255 ∷ [])) ≡ 10 ∷ 0 ∷ 0 ∷ 255 ∷ []
dec_ip-inc_ip_example =
    dec_ip-inc_ip (10 ∷ 0 ∷ 0 ∷ 255 ∷ [])
      (omega arith, (omega arith, (omega arith, (omega arith, tt))))
