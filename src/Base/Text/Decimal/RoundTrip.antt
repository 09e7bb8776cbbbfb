-- ===== src/Base/Text/Decimal/RoundTrip.antt =====
-- A printed number is read back.
use distil_proxy.Base.{
  ℕ, zero, suc, ◌+◌, ◌/◌, ◌%◌, ◌≤◌, ◌≡◌, ◌≢◌, refl, true, false, some, [], ◌∷◌, arith, All,
}
use distil_proxy.Base.Int.{ℤ, pos, negsuc, max_i64, IsInt64}
use distil_proxy.Base.Text.{Text, is_space}
use distil_proxy.Base.Text.Trim.{IsBlack}
use distil_proxy.Base.Text.Decimal.{digits, print_ℕ, print_ℤ, is_digit, scan, parse_ℕ, atoi}

scan-digits : (f n : ℕ) (out : Text) → n ≤ f → scan (digits f n out) 0 ≡ scan out n
unfolding digits scan
scan-digits zero n out h = ground arith
scan-digits (suc f) n out h = ground (arith, scan-digits f (n / 10) ((b'0' + n % 10) ∷ out))

abbrev IsDigits : Text → Type 0
IsDigits = All (λ c. is_digit c ≡ true)

digits-IsDigits : (f n : ℕ) (out : Text) → IsDigits out → IsDigits (digits f n out)
unfolding digits
digits-IsDigits zero n out h = h
digits-IsDigits (suc f) n out h = ground (arith, digits-IsDigits f (n / 10) ((b'0' + n % 10) ∷ out))

digits-ne-nil : (f n : ℕ) (out : Text) → out ≢ [] → digits f n out ≢ []
unfolding digits
digits-ne-nil zero n out h = h
digits-ne-nil (suc f) n out h = ground (arith, digits-ne-nil f (n / 10) ((b'0' + n % 10) ∷ out))

print_ℕ-IsDigits : (n : ℕ) → IsDigits (print_ℕ n)
unfolding print_ℕ
print_ℕ-IsDigits n = ground (arith, digits-IsDigits n n [])

print_ℕ-ne-nil : (n : ℕ) → print_ℕ n ≢ []
unfolding print_ℕ digits
print_ℕ-ne-nil zero = ground arith
print_ℕ-ne-nil (suc n) = ground (arith, digits-ne-nil n (suc n / 10) ((b'0' + suc n % 10) ∷ []))

parse-scan : (s : Text) → s ≢ [] → parse_ℕ s ≡ scan s 0
unfolding parse_ℕ
parse-scan [] h = absurd (h refl)
parse-scan (c ∷ s) _ = refl

scan-print : (n : ℕ) → scan (print_ℕ n) 0 ≡ some n
unfolding print_ℕ scan
scan-print n = ground (arith, scan-digits n n [])

pub parse-print : (n : ℕ) → parse_ℕ (print_ℕ n) ≡ some n
parse-print n = rw (parse-scan _ (print_ℕ-ne-nil n)) (scan-print n)

atoi_of_digits :
    (s : Text)
    → IsDigits s
    → s ≢ []
    → (n : ℕ) → n ≤ max_i64
    → parse_ℕ s ≡ some n
    → atoi s ≡ some (pos n)
unfolding atoi
atoi_of_digits [] _ ne n _ _ = absurd (ne refl)
atoi_of_digits (c ∷ s) (d, _) _ n fits e = rw e (ground arith)

-- `strconv.Atoi` reads back every `int` that `%d` prints.
pub atoi-print : (z : ℤ) → IsInt64 z → atoi (print_ℤ z) ≡ some z
unfolding print_ℤ
atoi-print (pos n) h =
    atoi_of_digits (print_ℕ n) (print_ℕ-IsDigits n) (print_ℕ-ne-nil n) n h.0 (parse-print n)
atoi-print (negsuc n) h = unfold atoi in rw (parse-print (suc n)) (ground arith)

black_of_digit : (c : ℕ) → is_digit c ≡ true → is_space c ≡ false
unfolding is_space
black_of_digit c h = ground arith

IsDigits-IsBlack : (s : Text) → IsDigits s → IsBlack s
IsDigits-IsBlack [] _ = tt
IsDigits-IsBlack (c ∷ s) (h, hs) = (black_of_digit c h, IsDigits-IsBlack s hs)

pub print_ℤ-IsBlack : (z : ℤ) → IsBlack (print_ℤ z)
unfolding print_ℤ is_space
print_ℤ-IsBlack (pos n) = IsDigits-IsBlack _ (print_ℕ-IsDigits n)
print_ℤ-IsBlack (negsuc n) = (refl, IsDigits-IsBlack _ (print_ℕ-IsDigits (suc n)))

pub print_ℤ-ne-nil : (z : ℤ) → print_ℤ z ≢ []
unfolding print_ℤ
print_ℤ-ne-nil (pos n) = print_ℕ-ne-nil n
print_ℤ-ne-nil (negsuc n) = λ e. cc
