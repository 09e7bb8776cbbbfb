-- ===== src/Base/Text/Decimal.antt =====
-- Decimal numbers: `%d` of `fmt`, and `strconv.Atoi`.
pub mod RoundTrip
use distil_proxy.Base.{
  ℕ, zero, suc, ◌+◌, ◌-◌, ◌*◌, ◌/◌, ◌%◌, ◌≤◌, ◌≡◌, refl, Bool, true, false, ◌&&◌, ◌||◌, Option,
  none, some, [], ◌∷◌, ◌++◌, arith, ltb, leb, ◌==◌, if◌then◌else◌,
}
use distil_proxy.Base.Int.{ℤ, pos, negsuc, max_i64}
use distil_proxy.Base.Text.{Text, codes}

-- The digits of a number in front of a text. A number has fewer digits than it has units, so the
-- fuel `n` is enough.
unfoldable pub digits : ℕ → ℕ → Text → Text
digits zero n out = out
digits (suc f) n out = elim (n == 0) [
  | true ↦ out
  | false ↦ digits f (n / 10) ((b'0' + n % 10) ∷ out)
]

unfoldable pub print_ℕ : ℕ → Text
unfolding digits
print_ℕ n = if n == 0 then b'0' ∷ [] else digits n n []

-- `fmt.Sprintf("%d", z)`
unfoldable pub print_ℤ : ℤ → Text
unfolding print_ℕ
print_ℤ (pos n) = print_ℕ n
print_ℤ (negsuc n) = b'-' ∷ print_ℕ (suc n)

abbrev pub is_digit : ℕ → Bool
is_digit c = leb b'0' c && leb c b'9'

-- The number that digits spell behind `n`.
pub scan : Text → ℕ → Option ℕ
scan [] n = some n
scan (c ∷ s) n = if is_digit c then scan s (n * 10 + (c - b'0')) else none

pub parse_ℕ : Text → Option ℕ
unfolding scan
parse_ℕ [] = none
parse_ℕ (c ∷ s) = scan (c ∷ s) 0

abbrev in_range : Bool → Option ℕ → Option ℤ
in_range negative none = none
in_range false (some n) = if leb n max_i64 then some (pos n) else none
in_range true (some zero) = some (pos 0)
in_range true (some (suc n)) = if leb n max_i64 then some (negsuc n) else none

-- `strconv.Atoi`, with a 64-bit `int`: `none` is a syntax or a range error.
unfoldable pub atoi : Text → Option ℤ
unfolding parse_ℕ
atoi [] = none
atoi (c ∷ s) =
    if c == b'-'
    then in_range true (parse_ℕ s)
    else if c == b'+'
    then in_range false (parse_ℕ s)
    else in_range false (parse_ℕ (c ∷ s))

print_example : print_ℤ (negsuc 1233) ≡ codes "-1234"
unfolding print_ℤ
print_example = refl

atoi_example : atoi (codes "+0042") ≡ some (pos 42)
unfolding atoi
atoi_example = refl

atoi_overflow : atoi (codes "9223372036854775808") ≡ none
unfolding atoi
atoi_overflow = refl
