-- ===== src/Strconv.antt =====
-- `strconv.ParseInt(s, 10, 64)` and `strconv.FormatInt(i, 10)`, which the volume sizes of
-- internal/driver/controller.go go through.
pub mod RoundTrip
mod Tests
use lxd_csi_driver.Base.{
  ℕ, zero, suc, ◌+◌, ◌-◌, ◌*◌, ◌/◌, ◌%◌, ◌^◌, ◌≡◌, refl, Bool, true, false, [], ◌∷◌, ◌||◌, Option,
  none, some, ltb, ◌==◌, if◌then◌else◌, ℤ, pos, negsuc,
}
use lxd_csi_driver.Strings.{Text, is_empty}

abbrev pub max_u64 : ℕ
max_u64 = 2 ^ 64 - 1

-- The digits of `ParseUint`, read behind `n`; `none` is a syntax or a range error.
unfoldable pub scan : Text → ℕ → Option ℕ
scan [] n = some n
scan (c ∷ s) n =
    let m = n * 10 + (c - b'0') in
    if ltb c b'0' || ltb b'9' c || ltb max_u64 m then none else scan s m

unfoldable pub parse_uint : Text → Option ℕ
unfolding scan
parse_uint [] = none
parse_uint (c ∷ s) = scan (c ∷ s) 0

-- The sign is put back, and the result checked against the range of an `int64`.
abbrev pub signed : Bool → Option ℕ → Option ℤ
signed negative none = none
signed false (some n) = if ltb n (2 ^ 63) then some (pos n) else none
signed true (some zero) = some (pos 0)
signed true (some (suc n)) = if ltb n (2 ^ 63) then some (negsuc n) else none

unfoldable pub parse_int : Text → Option ℤ
unfolding parse_uint
parse_int [] = none
parse_int (c ∷ s) =
    if c == b'-'
    then signed true (parse_uint s)
    else if c == b'+'
    then signed false (parse_uint s)
    else signed false (parse_uint (c ∷ s))

-- The decimal digits of `n` before `out`. Each round divides `n` by ten, so `n + 1` rounds are
-- enough.
unfoldable pub digits : ℕ → ℕ → Text → Text
digits zero n out = out
digits (suc fuel) n out = elim (n / 10) [
  | zero ↦ (b'0' + n % 10) ∷ out
  | suc m ↦ digits fuel (suc m) ((b'0' + n % 10) ∷ out)
]

unfoldable pub format_uint : ℕ → Text
unfolding digits
format_uint n = digits (suc n) n []

unfoldable pub format_int : ℤ → Text
unfolding format_uint
format_int (pos n) = format_uint n
format_int (negsuc n) = b'-' ∷ format_uint (suc n)
