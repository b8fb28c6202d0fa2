-- ===== src/Strconv/RoundTrip.antt =====
-- Printing and reading a volume's size.
use lxd_csi_driver.Base.{
  ℕ, zero, suc, ◌+◌, ◌/◌, ◌%◌, ◌^◌, ◌≤◌, ◌<◌, ◌≡◌, refl, false, [], ◌∷◌, some, ℤ, pos, negsuc,
  arith, ℕ-cases, inl, inr,
}
use lxd_csi_driver.Strings.{Text}
use lxd_csi_driver.Strconv.{
  max_u64, scan, parse_uint, parse_int, digits, format_uint, format_int, signed,
}

scan_last : (n : ℕ) (out : Text) → n ≤ max_u64 → scan ((b'0' + n % 10) ∷ out) (n / 10) ≡ scan out n
unfolding scan
scan_last n out h = ground arith

scan-digits :
    (fuel n : ℕ) (out : Text) → n < fuel → n ≤ max_u64 → scan (digits fuel n out) 0 ≡ scan out n
unfolding digits
scan-digits zero n out lt h = elim lt [ ]
scan-digits (suc fuel) n out lt h =
    grind (arith, scan_last n out h, scan-digits fuel (n / 10) ((b'0' + n % 10) ∷ out))

-- A text that begins with a digit, and so with no sign.
abbrev BeginsWithDigit : Text → Type 0
BeginsWithDigit [] = ⊥
BeginsWithDigit (c ∷ s) = (b'0' ≤ c) × (c ≤ b'9')

digits-BeginsWithDigit : (fuel n : ℕ) (out : Text) → n < fuel → BeginsWithDigit (digits fuel n out)
unfolding digits
digits-BeginsWithDigit zero n out lt = elim lt [ ]
digits-BeginsWithDigit (suc fuel) n out lt = elim (ℕ-cases (n / 10)) [
  | inl e ↦ rw (e, digits) (omega arith)
  | inr (m, e) ↦
      rw (e, digits) (digits-BeginsWithDigit fuel (suc m) ((b'0' + n % 10) ∷ out) (omega arith))
]

parse_uint-scan : (s : Text) → BeginsWithDigit s → parse_uint s ≡ scan s 0
unfolding parse_uint
parse_uint-scan [] h = absurd h
parse_uint-scan (c ∷ s) h = refl

parse_int-parse_uint : (s : Text) → BeginsWithDigit s → parse_int s ≡ signed false (parse_uint s)
unfolding parse_int
parse_int-parse_uint [] h = absurd h
parse_int-parse_uint (c ∷ s) h = ground arith

parse_uint-format_uint : (n : ℕ) → n ≤ max_u64 → parse_uint (format_uint n) ≡ some n
unfolding format_uint scan
parse_uint-format_uint n h =
    rw (parse_uint-scan (digits (suc n) n []) (digits-BeginsWithDigit (suc n) n [] (omega arith)))
      (scan-digits (suc n) n [] (omega arith) h)

-- The range of an `int64`.
abbrev pub IsInt64 : ℤ → Type 0
IsInt64 (pos n) = n < 2 ^ 63
IsInt64 (negsuc n) = n < 2 ^ 63

-- An integer in the range of an `int64` is read back from its decimal print.
pub parse_int-format_int : (z : ℤ) → IsInt64 z → parse_int (format_int z) ≡ some z
unfolding format_int
parse_int-format_int (pos n) h =
    rw
      (
        parse_int-parse_uint (format_uint n) (digits-BeginsWithDigit (suc n) n [] (omega arith)),
        parse_uint-format_uint n (omega arith),
      )
      (ground arith)
parse_int-format_int (negsuc n) h =
    unfold parse_int in rw (parse_uint-format_uint (suc n) (omega arith)) (ground arith)
