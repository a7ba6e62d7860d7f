-- ===== src/Netbox/Numbers/RoundTrip.antt =====
-- Printing an integer and parsing it, and the range of what is parsed.
use Prim.Native.Char.{code}
use Prim.Native.String.{String, [], ◌∷◌}
use text.Mathlib.TextLemmas.{cons-append, nil-append}
use cluster_api_ipam_provide.Base.{
  ℕ, zero, suc, ◌+◌, ◌*◌, ◌/◌, ◌%◌, ◌<◌, ◌≤◌, Bool, true, false, ltb, leb, ◌==◌, ok, err, Option,
  none, some, ◌≡◌, refl, arith, ◌<>◌, ◌∙◌, ap, ◌⊎◌, Bool-cases, inl, inr,
}
use cluster_api_ipam_provide.Base.Int.{ℤ, pos, negsuc}
use cluster_api_ipam_provide.Netbox.Numbers.{
  is_digit, scan, digits_value, range, cutoff, signed, parse_int32, digit_char, emit, format_nat,
  format_int,
}

abbrev DigitTable : ℕ → Type 0
DigitTable d = (code (digit_char d) ≡ b'0' + d)

code-digit_char : (d : ℕ) → d < 10 → DigitTable d
code-digit_char zero h = refl
code-digit_char (suc zero) h = refl
code-digit_char (suc (suc zero)) h = refl
code-digit_char (suc (suc (suc zero))) h = refl
code-digit_char (suc (suc (suc (suc zero)))) h = refl
code-digit_char (suc (suc (suc (suc (suc zero))))) h = refl
code-digit_char (suc (suc (suc (suc (suc (suc zero)))))) h = refl
code-digit_char (suc (suc (suc (suc (suc (suc (suc zero))))))) h = refl
code-digit_char (suc (suc (suc (suc (suc (suc (suc (suc zero)))))))) h = refl
code-digit_char (suc (suc (suc (suc (suc (suc (suc (suc (suc zero))))))))) h = refl
code-digit_char (suc (suc (suc (suc (suc (suc (suc (suc (suc (suc d)))))))))) h =
    absurd (omega arith)

scan-digit :
    (m d k : ℕ) (out : String) → d < 10 → m * 10 + d ≡ k → scan m (digit_char d ∷ out) ≡ scan k out
unfolding scan
scan-digit m d k out h e = ground (arith, code-digit_char d h)

-- A scan over the digits of `n` comes to `n`.
scan-emit : (fuel n : ℕ) (out : String) → n ≤ fuel → scan 0 (emit fuel n out) ≡ scan n out
unfolding emit
scan-emit zero n out h = scan-digit 0 (n % 10) n out (omega arith) (omega arith)
scan-emit (suc fuel) n out h = elim (Bool-cases (ltb n 10)) [
  | inl small ↦ rw small (scan-digit 0 n n out (ground arith) (omega arith))
  | inr large ↦ rw large (
      scan-emit fuel (n / 10) (digit_char (n % 10) ∷ out) (ground arith)
      ∙ scan-digit (n / 10) (n % 10) n out (omega arith) (omega arith))
]

-- The text of a number starts with a digit.
abbrev StartsWithDigit : String → Type 0
StartsWithDigit [] = ⊥
StartsWithDigit (c ∷ s) = is_digit (code c) ≡ true

emit-StartsWithDigit : (fuel n : ℕ) (out : String) → n ≤ fuel → StartsWithDigit (emit fuel n out)
unfolding emit
emit-StartsWithDigit zero n out h = ground (arith, code-digit_char (n % 10) (omega arith))
emit-StartsWithDigit (suc fuel) n out h = elim (Bool-cases (ltb n 10)) [
  | inl small ↦ rw small (ground (arith, code-digit_char n (ground arith)))
  | inr large ↦ rw large (emit-StartsWithDigit fuel (n / 10) _ (ground arith))
]

digits_value-eq-scan : (s : String) → StartsWithDigit s → digits_value s ≡ scan 0 s
unfolding digits_value
digits_value-eq-scan [] h = absurd h
digits_value-eq-scan (c ∷ s) h = refl

pub digits_value-format_nat : (n : ℕ) → digits_value (format_nat n) ≡ some n
unfolding format_nat scan
digits_value-format_nat n =
    digits_value-eq-scan (emit n n "") (emit-StartsWithDigit n n "" (omega arith))
    ∙ scan-emit n n "" (omega arith)

unsigned : (s : String) → StartsWithDigit s → parse_int32 s ≡ signed false (digits_value s)
unfolding parse_int32
unsigned [] h = absurd h
unsigned (c ∷ s) h = ground arith

-- The 32-bit two's complement range.
abbrev pub IsInt32 : ℤ → Type 0
IsInt32 (pos n) = n < cutoff
IsInt32 (negsuc n) = n < cutoff

signed-IsInt32 : (negative : Bool) (o : Option ℕ) (z : ℤ) → signed negative o ≡ ok z → IsInt32 z
signed-IsInt32 negative none z h = ground arith
signed-IsInt32 false (some n) z h = ground arith
signed-IsInt32 true (some zero) z h = ground arith
signed-IsInt32 true (some (suc n)) z h = ground arith

-- An accepted text stands for an integer of 32 bits, whatever its length.
pub parse_int32-IsInt32 : (s : String) (z : ℤ) → parse_int32 s ≡ ok z → IsInt32 z
unfolding parse_int32
parse_int32-IsInt32 [] z h = ground arith
parse_int32-IsInt32 (c ∷ s) z h = elim (Bool-cases (code c == b'-')) [
  | inl minus ↦ signed-IsInt32 true (digits_value s) z (rw minus at h)
  | inr other ↦ elim (Bool-cases (code c == b'+')) [
    | inl plus ↦ signed-IsInt32 false (digits_value s) z (rw plus at (rw other at h))
    | inr digit ↦ signed-IsInt32 false (digits_value (c ∷ s)) z (rw digit at (rw other at h))
  ]
]

parse_int32-minus : (s : String) → parse_int32 ("-" <> s) ≡ signed true (digits_value s)
unfolding parse_int32
parse_int32-minus s = rw cons-append (rw nil-append refl)

pub parse_int32-format_nat : (n : ℕ) → parse_int32 (format_nat n) ≡ signed false (some n)
parse_int32-format_nat n =
    unsigned (format_nat n) (unfold format_nat in emit-StartsWithDigit n n "" (omega arith))
    ∙ ap (signed false) (digits_value-format_nat n)

parse_int32-format_negsuc :
    (n : ℕ) → parse_int32 (format_int (negsuc n)) ≡ signed true (some (suc n))
unfolding format_int
parse_int32-format_negsuc n =
    parse_int32-minus (format_nat (n + 1))
    ∙ ap (signed true) (digits_value-format_nat (n + 1) ∙ ap some {y = suc n} (omega arith))

-- Parsing the printed form of an integer gives that integer back if it has 32 bits, and otherwise
-- the error that it is out of range, which is not a syntax error.
pub parse_int32-format_int :
    (z : ℤ)
    → (IsInt32 z × (parse_int32 (format_int z) ≡ ok z))
      ⊎ (¬ IsInt32 z × (parse_int32 (format_int z) ≡ err range))
parse_int32-format_int (pos n) =
    unfold format_int in
    rw parse_int32-format_nat (elim (Bool-cases (leb cutoff n)) [
      | inl large ↦ inr ((λ h. ground arith), ground arith)
      | inr fits ↦ inl (ground arith, ground arith)
    ])
parse_int32-format_int (negsuc n) = rw parse_int32-format_negsuc (elim (Bool-cases (leb cutoff n)) [
  | inl large ↦ inr ((λ h. ground arith), ground arith)
  | inr fits ↦ inl (ground arith, ground arith)
])
