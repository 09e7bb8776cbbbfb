-- ===== src/Platform/Quote/Reads.antt =====
-- A quoted text reads back.
use distil_proxy.Base.{
  ℕ, zero, suc, ◌+◌, ◌*◌, ◌-◌, ◌/◌, ◌%◌, ◌<◌, ◌≡◌, refl, ◌∙◌, ap, Bool, true, false, ◌||◌, Option,
  none, some, [], ◌∷◌, ◌++◌, ltb, ◌==◌, All, if◌then◌else◌, arith,
}
use distil_proxy.Base.Text.{Text}
use distil_proxy.Platform.Quote.{
  hex_digit, hex2, hex4, hex8, letter_of, prints, quote_rune, quote_onto, quote,
}

hex_value : ℕ → ℕ
hex_value c = if ltb c b'a' then c - b'0' else c - b'a' + 10

-- What a letter stands for behind a backslash
letter_value : ℕ → ℕ
letter_value c =
    if c == b'a'
    then 7
    else if c == b'b'
    then 8
    else if c == b'f'
    then 12
    else if c == b'n'
    then 10
    else if c == b'r'
    then 13
    else if c == b't'
    then 9
    else if c == b'v'
    then 11
    else c

-- How many digits follow a letter behind a backslash
digits_of : ℕ → ℕ
digits_of c = if c == b'x' then 2 else if c == b'u' then 4 else if c == b'U' then 8 else 0

-- Inside the quotes, behind a backslash, or before some more digits of a code point
data Place : Type 0 where
  plain escaped : Place
  digits : ℕ → ℕ → Place

abbrev in_front : ℕ → Option (Text × Text) → Option (Text × Text)
in_front c none = none
in_front c (some (s, rest)) = some (c ∷ s, rest)

-- The text in quotes up to the closing one, as in Go's syntax, and what follows
read : Place → Text → Option (Text × Text)
unfolding letter_value digits_of hex_value
read place [] = none
read plain (c ∷ s) =
    let unquoted = in_front c (read plain s) in
    let behind = read escaped s in
    if c == b'"' then some ([], s) else if c == b'\\' then behind else unquoted
read escaped (c ∷ s) =
    let letter = in_front (letter_value c) (read plain s) in
    let number = read (digits (digits_of c) 0) s in if digits_of c == 0 then letter else number
read (digits zero n) (c ∷ s) = none
read (digits (suc zero) n) (c ∷ s) = in_front (n * 16 + hex_value c) (read plain s)
read (digits (suc (suc k)) n) (c ∷ s) = read (digits (suc k) (n * 16 + hex_value c)) s

pub read_quoted : Text → Option (Text × Text)
unfolding read
read_quoted [] = none
read_quoted (c ∷ s) = if c == b'"' then read plain s else none

hex_lem : (n : ℕ) → n < 16 → hex_value (hex_digit n) ≡ n
unfolding hex_value hex_digit
hex_lem n h = ground arith

read-hex2 : (c : ℕ) (s : Text) → c < 256 → read (digits 2 0) (hex2 c s) ≡ in_front c (read plain s)
unfolding read
read-hex2 c s h =
    ap (λ n. in_front n (read plain s))
      (omega (arith, hex_lem (c / 16 % 16) (omega arith), hex_lem (c % 16) (omega arith)))

read-hex4 :
    (c : ℕ) (s : Text) → c < 65_536 → read (digits 4 0) (hex4 c s) ≡ in_front c (read plain s)
unfolding read
read-hex4 c s h =
    ap (λ n. in_front n (read plain s))
      (omega (
        arith,
        hex_lem (c / 256 / 16 % 16) (omega arith),
        hex_lem (c / 256 % 16) (omega arith),
        hex_lem (c / 16 % 16) (omega arith),
        hex_lem (c % 16) (omega arith),
      ))

read-hex8 :
    (c : ℕ) (s : Text)
    → c < 4_294_967_296
    → read (digits 8 0) (hex8 c s) ≡ in_front c (read plain s)
unfolding read
read-hex8 c s h =
    ap (λ n. in_front n (read plain s))
      (omega (
        arith,
        hex_lem (c / 65_536 / 256 / 16 % 16) (omega arith),
        hex_lem (c / 65_536 / 256 % 16) (omega arith),
        hex_lem (c / 65_536 / 16 % 16) (omega arith),
        hex_lem (c / 65_536 % 16) (omega arith),
        hex_lem (c / 256 / 16 % 16) (omega arith),
        hex_lem (c / 256 % 16) (omega arith),
        hex_lem (c / 16 % 16) (omega arith),
        hex_lem (c % 16) (omega arith),
      ))

module _ (c : ℕ) (s : Text) (h : c < 4_294_967_296) where
  abbrev Reads : Text → Type 0
  Reads t = read escaped t ≡ in_front c (read plain s)

  by_test :
      (b : Bool) (x y : Text)
      → (b ≡ true → Reads x)
      → (b ≡ false → Reads y)
      → Reads (if b then x else y)
  by_test true x y f g = f refl
  by_test false x y f g = g refl

  named : (n : ℕ) → (c == n) ≡ true → in_front n (read plain s) ≡ in_front c (read plain s)
  named n e = ap (λ k. in_front k (read plain s)) (ground arith)

  read_number : Reads (if ltb c 65_536 then b'u' ∷ hex4 c s else b'U' ∷ hex8 c s)
  unfolding read
  read_number =
      by_test (ltb c 65_536) _ _ (λ e. read-hex4 c s (ground arith)) (λ _. read-hex8 c s h)

  read_letter : Reads (letter_of c s)
  unfolding read letter_of
  read_letter = by_test (c == 7) _ _ (named 7) λ _. by_test (c == 8) _ _ (named 8) λ _.
      by_test (c == 12) _ _ (named 12) λ _. by_test (c == 10) _ _ (named 10) λ _.
        by_test (c == 13) _ _ (named 13) λ _. by_test (c == 9) _ _ (named 9) λ _.
          by_test (c == 11) _ _ (named 11) λ _.
            by_test (ltb c 32 || c == 127) _ _ (λ e. read-hex2 c s (ground arith)) λ _. read_number

module _ (is_print : ℕ → Bool) where
  module _ (c : ℕ) (s : Text) (h : c < 4_294_967_296) where
    read_case :
        (a b : Bool)
        → (c == b'"' || c == b'\\') ≡ a
        → read plain (if a then b'\\' ∷ c ∷ s else if b then c ∷ s else b'\\' ∷ letter_of c s)
          ≡ in_front c (read plain s)
    unfolding read letter_value digits_of
    read_case true b e = ground arith
    read_case false true e = ground arith
    read_case false false e = read_letter c s h

    read_rune : read plain (quote_rune is_print c s) ≡ in_front c (read plain s)
    unfolding quote_rune
    read_rune = read_case _ (prints is_print c) refl

    letter_of-append : (r : Text) → letter_of c s ++ r ≡ letter_of c (s ++ r)
    unfolding letter_of
    letter_of-append r = ground arith

    quote_rune-append : (r : Text) → quote_rune is_print c s ++ r ≡ quote_rune is_print c (s ++ r)
    unfolding quote_rune
    quote_rune-append r = ground (arith, letter_of-append r)

  read_onto :
      (s rest : Text)
      → All (λ c. c < 4_294_967_296) s
      → read plain (quote_onto is_print s (b'"' ∷ rest)) ≡ some (s, rest)
  unfolding quote_onto
  read_onto [] rest h = unfold read in refl
  read_onto (c ∷ s) rest (hc, h) =
      read_rune c (quote_onto is_print s (b'"' ∷ rest)) hc ∙ ap (in_front c) (read_onto s rest h)

  quote_onto-append :
      (s t r : Text)
      → All (λ c. c < 4_294_967_296) s
      → quote_onto is_print s t ++ r ≡ quote_onto is_print s (t ++ r)
  unfolding quote_onto
  quote_onto-append [] t r h = refl
  quote_onto-append (c ∷ s) t r (hc, h) =
      quote_rune-append c (quote_onto is_print s t) hc r
      ∙ ap (quote_rune is_print c) (quote_onto-append s t r h)

-- A text that `strconv.Quote` has quoted reads back, with what follows, whatever is printable, if its code points
-- are below 2^32.
pub read_quote :
    (is_print : ℕ → Bool) (s rest : Text)
    → All (λ c. c < 4_294_967_296) s
    → read_quoted (quote is_print s ++ rest) ≡ some (s, rest)
unfolding quote read_quoted
read_quote is_print s rest h =
    ap (read plain) (quote_onto-append is_print s _ rest h) ∙ read_onto is_print s rest h
