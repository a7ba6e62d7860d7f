-- ===== src/Netbox/Numbers.antt =====
-- `parseInt32` of internal/netbox/annotations.go, with what it uses of strconv: `ParseInt(s, 10, 32)`
-- and `FormatInt(n, 10)`.
pub mod RoundTrip
use Prim.Native.Char.{Char, code}
use Prim.Native.String.{String, [], ◌∷◌}
use cluster_api_ipam_provide.Base.{
  ℕ, zero, suc, ◌+◌, ◌-◌, ◌*◌, ◌/◌, ◌%◌, ◌^◌, ◌<◌, ◌≤◌, Bool, ◌&&◌, ◌||◌, ltb, leb, ◌==◌,
  if◌then◌else◌, Result, ok, err, Option, none, some, ◌≡◌, refl, ◌<>◌,
}
use cluster_api_ipam_provide.Base.Int.{ℤ, pos, negsuc}

abbrev pub is_digit : ℕ → Bool
is_digit c = leb b'0' c && leb c b'9'

-- the digits of `ParseUint`, over an accumulator without a bound
scan : ℕ → String → Option ℕ
scan n [] = some n
scan n (c ∷ s) =
    let rest = scan (n * 10 + (code c - b'0')) s in if is_digit (code c) then rest else none

unfoldable pub digits_value : String → Option ℕ
unfolding scan
digits_value [] = none
digits_value (c ∷ s) = scan 0 (c ∷ s)

pub data NumError : Type 0 where
  syntax range : NumError

abbrev pub cutoff : ℕ
cutoff = 2 ^ 31

-- the sign's two range tests at the end of `ParseInt(s, 10, 32)`
abbrev in_range : Bool → ℕ → Result NumError ℤ
in_range Bool.false n = if leb cutoff n then err range else ok (pos n)
in_range Bool.true zero = ok (pos 0)
in_range Bool.true (suc n) = if ltb cutoff (suc n) then err range else ok (negsuc n)

abbrev signed : Bool → Option ℕ → Result NumError ℤ
signed negative none = err syntax
signed negative (some n) = in_range negative n

unfoldable pub parse_int32 : String → Result NumError ℤ
unfolding digits_value
parse_int32 [] = err syntax
parse_int32 (c ∷ s) =
    if code c == b'-'
    then signed Bool.true (digits_value s)
    else if code c == b'+'
    then signed Bool.false (digits_value s)
    else signed Bool.false (digits_value (c ∷ s))

abbrev digit_char : ℕ → Char
digit_char zero = "0"
digit_char (suc zero) = "1"
digit_char (suc (suc zero)) = "2"
digit_char (suc (suc (suc zero))) = "3"
digit_char (suc (suc (suc (suc zero)))) = "4"
digit_char (suc (suc (suc (suc (suc zero))))) = "5"
digit_char (suc (suc (suc (suc (suc (suc zero)))))) = "6"
digit_char (suc (suc (suc (suc (suc (suc (suc zero))))))) = "7"
digit_char (suc (suc (suc (suc (suc (suc (suc (suc zero)))))))) = "8"
digit_char _ = "9"

-- the digits of `n` before `out`; fuel of at least `n` is enough
emit : ℕ → ℕ → String → String
emit zero n out = digit_char (n % 10) ∷ out
emit (suc fuel) n out =
    let more = emit fuel (n / 10) (digit_char (n % 10) ∷ out) in
    if ltb n 10 then digit_char n ∷ out else more

-- the loop of FormatInt on the magnitude; a step divides by ten, so `n` steps are enough
unfoldable pub format_nat : ℕ → String
unfolding emit
format_nat n = emit n n ""

-- `strconv.FormatInt(n, 10)`
unfoldable pub format_int : ℤ → String
unfolding format_nat
format_int (pos n) = format_nat n
format_int (negsuc n) = "-" <> format_nat (n + 1)

tests :
    (parse_int32 "-2147483648" ≡ ok (negsuc 2147483647))
    × (parse_int32 "2147483648" ≡ err range)
    × (parse_int32 "+7" ≡ ok (pos 7))
    × (parse_int32 "-" ≡ err syntax)
    × (format_int (negsuc 119) ≡ "-120")
unfolding parse_int32 format_int
tests = (refl, refl, refl, refl, refl)
