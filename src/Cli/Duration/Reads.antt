-- ===== src/Cli/Duration/Reads.antt =====
-- The text of `humanDuration`, internal/cli/status.go, read back.
use distil_proxy.Base.{
  ◌≡◌, refl, ◌∙◌, ℕ, zero, suc, ◌+◌, ◌-◌, ◌*◌, ◌/◌, ◌%◌, ◌≤◌, ◌<◌, Bool, true, false, leb, ◌==◌,
  List, [], ◌∷◌, ◌++◌, map, append_assoc, arith, All, if◌then◌else◌,
}
use distil_proxy.Base.Int.{pos}
use distil_proxy.Base.Text.{Text, codes, join}
use distil_proxy.Base.Text.Decimal.{digits, print_ℕ, is_digit}
use distil_proxy.Cli.Duration.{Part, show_part, with_part, duration_parts, human_duration}

-- The seconds of a unit
abbrev pub seconds_in : ℕ → ℕ
seconds_in c =
    if c == b'd'
    then 86400
    else if c == b'h'
    then 3600
    else if c == b'm'
    then 60
    else if c == b's'
    then 1
    else 0

-- Reads numbers that units follow, and adds them up; anything else ends a number.
abbrev pub read_parts : Text → ℕ → ℕ → ℕ
read_parts [] total number = total
read_parts (c ∷ s) total number =
    if is_digit c
    then read_parts s total (number * 10 + (c - b'0'))
    else read_parts s (total + number * seconds_in c) 0

read_parts-digits :
    (f n total : ℕ) (out : Text)
    → n ≤ f
    → read_parts (digits f n out) total 0 ≡ read_parts out total n
unfolding digits
read_parts-digits zero n total out h = ground arith
read_parts-digits (suc f) n total out h =
    ground (arith, read_parts-digits f (n / 10) total ((b'0' + n % 10) ∷ out))

digits-append : (f n : ℕ) (out rest : Text) → digits f n out ++ rest ≡ digits f n (out ++ rest)
unfolding digits
digits-append zero n out rest = refl
digits-append (suc f) n out rest =
    ground (arith, digits-append f (n / 10) ((b'0' + n % 10) ∷ out) rest)

read_parts-print_ℕ :
    (n total : ℕ) (rest : Text) → read_parts (print_ℕ n ++ rest) total 0 ≡ read_parts rest total n
unfolding print_ℕ
read_parts-print_ℕ n total rest =
    ground (arith, digits-append n n [] rest, read_parts-digits n n total rest)

abbrev total_of : List Part → ℕ
total_of [] = 0
total_of (p ∷ ps) = p.amount * seconds_in p.unit_sign + total_of ps

abbrev IsUnits : List Part → Type 0
IsUnits = All (λ p. is_digit p.unit_sign ≡ false)

read_parts-show_part :
    (p : Part) (total : ℕ) (rest : Text)
    → is_digit p.unit_sign ≡ false
    → read_parts (show_part p ++ rest) total 0
      ≡ read_parts rest (total + p.amount * seconds_in p.unit_sign) 0
unfolding show_part
read_parts-show_part p total rest h =
    rw
      (
        append_assoc (print_ℕ p.amount) (p.unit_sign ∷ []) rest,
        read_parts-print_ℕ p.amount total (p.unit_sign ∷ rest),
        h,
      )
      refl

read_parts-last :
    (p : Part) (total : ℕ)
    → is_digit p.unit_sign ≡ false
    → read_parts (show_part p) total 0 ≡ total + p.amount * seconds_in p.unit_sign
unfolding show_part
read_parts-last p total h = rw (read_parts-print_ℕ p.amount total (p.unit_sign ∷ []), h) refl

read_parts-join :
    (ps : List Part) (total : ℕ)
    → IsUnits ps
    → read_parts (join (map show_part ps) (codes " ")) total 0 ≡ total + total_of ps
unfolding join
read_parts-join [] total h = omega arith
read_parts-join (p ∷ []) total (h, _) = read_parts-last p total h ∙ omega arith
read_parts-join (p ∷ q ∷ ps) total (h, hs) =
    rw (read_parts-show_part p total _ h)
      (ground (arith, read_parts-join (q ∷ ps) (total + p.amount * seconds_in p.unit_sign) hs))

duration_parts-total : (n : ℕ) → total_of (duration_parts n) ≡ n
unfolding duration_parts with_part
duration_parts-total n = ground arith

duration_parts-IsUnits : (n : ℕ) → IsUnits (duration_parts n)
unfolding duration_parts with_part
duration_parts-IsUnits n = ground arith

-- Fewer seconds than a minute has, minutes than an hour, hours than a day.
abbrev IsProper : List Part → Type 0
IsProper = All (λ p.
    p.amount
    < (if p.unit_sign == b'd' then suc p.amount else if p.unit_sign == b'h' then 24 else 60))

duration_parts-IsProper : (n : ℕ) → IsProper (duration_parts n)
unfolding duration_parts with_part
duration_parts-IsProper n = ground arith

-- A number of seconds above 0 is what its text says: the days, hours, minutes and seconds that `humanDuration` prints
-- add up to it, with at most 23 hours, 59 minutes and 59 seconds.
pub human_duration_lem :
    (n : ℕ) → 0 < n → (read_parts (human_duration (pos n)) 0 0 ≡ n) × IsProper (duration_parts n)
unfolding human_duration
human_duration_lem n h = (split (leb (n + 0) 0) refl, duration_parts-IsProper n)
  where
    split :
        (b : Bool)
        → leb (n + 0) 0 ≡ b
        → read_parts
            (if b then codes "0s" else join (map show_part (duration_parts n)) (codes " "))
            0
            0
          ≡ n
    split true e = absurd (ground arith)
    split false e =
        read_parts-join (duration_parts n) 0 (duration_parts-IsUnits n)
        ∙ ground (arith, duration_parts-total n)
