-- ===== src/Addresses.antt =====
-- internal/provision/routeros/pool_ranges.go: counting up and down through addresses, as lists of
-- bytes with the highest first.
mod Tests
use d5net_billing.Prelude.{
  ℕ, suc, ◌+◌, ◌-◌, ◌*◌, ◌%◌, ◌^◌, ◌<◌, ◌≡◌, refl, ap, arith, Bool, true, false, List, [], ◌∷◌, inl,
  inr, All, ltb, ◌==◌, length, Bool-cases, if◌then◌else◌,
}
use d5net_billing.Prelude.Int.{ℤ, pos, negsuc}

-- A byte and the carry into the next higher one.
abbrev pub inc_byte : ℕ → List ℕ × Bool → List ℕ × Bool
inc_byte b (bs, false) = (b ∷ bs, false)
inc_byte b (bs, true) = (((b + 1) % 256) ∷ bs, (b + 1) % 256 == 0)

abbrev pub inc_carry : List ℕ → List ℕ × Bool
inc_carry [] = ([], true)
inc_carry (b ∷ bs) = inc_byte b (inc_carry bs)

-- incIP
unfoldable pub inc_ip : List ℕ → List ℕ
inc_ip ip = (inc_carry ip).0

abbrev pub dec_byte : ℕ → List ℕ × Bool → List ℕ × Bool
dec_byte b (bs, false) = (b ∷ bs, false)
dec_byte b (bs, true) = if ltb 0 b then ((b - 1) ∷ bs, false) else (255 ∷ bs, true)

abbrev pub dec_borrow : List ℕ → List ℕ × Bool
dec_borrow [] = ([], true)
dec_borrow (b ∷ bs) = dec_byte b (dec_borrow bs)

-- decIP
unfoldable pub dec_ip : List ℕ → List ℕ
dec_ip ip = (dec_borrow ip).0

-- compareIP, on addresses of the same length
unfoldable pub compare_ip : List ℕ → List ℕ → ℤ
compare_ip (a ∷ more) (b ∷ bs) =
    let rest = compare_ip more bs in if ltb a b then negsuc 0 else (if ltb b a then pos 1 else rest)
compare_ip _ _ = pos 0

abbrev pub IsAddress : List ℕ → Type 0
IsAddress = All λ b. b < 256

back_byte :
    (b : ℕ) (bs : List ℕ) (r : List ℕ × Bool)
    → b < 256
    → dec_borrow (r.0) ≡ (bs, r.1)
    → dec_borrow ((inc_byte b r).0) ≡ (b ∷ bs, (inc_byte b r).1)
back_byte b bs (up, false) h e = rw e refl
back_byte b bs (up, true) h e = elim (Bool-cases (b == 255)) [
  | inl full ↦ let last : b ≡ 255 = ground arith in rw (last, e) refl
  | inr room ↦
      let small : (b + 1) % 256 ≡ b + 1 = ground arith in
      let more : ltb 0 (b + 1) ≡ true = ground arith in
      let open? : ((b + 1) == 0) ≡ false = ground arith in
      let same : b + 1 - 1 ≡ b = omega arith in rw (small, open?, e) (rw (more, same) refl)
]

back : (ip : List ℕ) → IsAddress ip → dec_borrow ((inc_carry ip).0) ≡ (ip, (inc_carry ip).1)
back [] h = refl
back (b ∷ bs) (small, h) = back_byte b bs (inc_carry bs) small (back bs h)

-- Counting an address up and down again gives the address, also from the last one, which counts up
-- to the first.
pub dec_ip-inc_ip : (ip : List ℕ) → IsAddress ip → dec_ip (inc_ip ip) ≡ ip
unfolding dec_ip inc_ip
dec_ip-inc_ip ip h = ap (λ r. r.0) (back ip h)
