-- ===== src/Judge/Docker/Strings/Decimal.antt =====
-- The digits of a number are enough: they give the number back.
use online_coding_judge.Prelude.{
  ℕ, zero, suc, ◌+◌, ◌/◌, ◌%◌, ◌^◌, ◌<◌, ◌≡◌, ◌∙◌, Bytes, [], ◌∷◌, some, ltb, Bool-cases, inl, inr,
  arith,
}
use online_coding_judge.Judge.Docker.Strings.{digits, itoa, scan_digits}

scan_digits-digits :
    (fuel n : ℕ) (rest : Bytes)
    → n < 10 ^ suc fuel
    → scan_digits 0 (digits (suc fuel) n rest) ≡ scan_digits n rest
unfolding digits scan_digits
scan_digits-digits zero n rest h = ground arith
scan_digits-digits (suc fuel) n rest h = elim (Bool-cases (ltb n 10)) [
  | inl small ↦ rw small (ground arith)
  | inr large ↦
      rw large
        (scan_digits-digits fuel (n / 10) ((48 + n % 10) ∷ rest) (omega arith) ∙ ground arith)
]

-- Twenty digits are enough for a number of 64 bits.
pub scan_digits-itoa : (n : ℕ) → n < 10 ^ 20 → scan_digits 0 (itoa n) ≡ some n
unfolding itoa scan_digits
scan_digits-itoa n h = scan_digits-digits 19 n [] h
