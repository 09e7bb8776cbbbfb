-- ===== src/Platform/Quote.antt =====
-- `strconv.Quote`. Which code points outside ASCII are printed as they are is the parameter `is_print`.
pub mod Reads
use distil_proxy.Base.{
  ℕ, ◌+◌, ◌-◌, ◌/◌, ◌%◌, Bool, true, false, ◌&&◌, ◌||◌, List, [], ◌∷◌, ◌++◌, leb, ltb, ◌==◌, ◌≡◌,
  refl, if◌then◌else◌,
}
use distil_proxy.Base.Text.{Text, codes}

unfoldable pub hex_digit : ℕ → ℕ
hex_digit n = if ltb n 10 then n + b'0' else n - 10 + b'a'

abbrev pub hex2 : ℕ → Text → Text
hex2 c rest = hex_digit (c / 16 % 16) ∷ hex_digit (c % 16) ∷ rest

abbrev pub hex4 : ℕ → Text → Text
hex4 c rest = hex2 (c / 256) (hex2 c rest)

abbrev pub hex8 : ℕ → Text → Text
hex8 c rest = hex4 (c / 65_536) (hex4 c rest)

-- The letter behind the backslash of a control character
unfoldable pub letter_of : ℕ → Text → Text
unfolding hex_digit
letter_of c rest =
    if c == 7
    then b'a' ∷ rest
    else if c == 8
    then b'b' ∷ rest
    else if c == 12
    then b'f' ∷ rest
    else if c == 10
    then b'n' ∷ rest
    else if c == 13
    then b'r' ∷ rest
    else if c == 9
    then b't' ∷ rest
    else if c == 11
    then b'v' ∷ rest
    else if ltb c 32 || c == 127
    then b'x' ∷ hex2 c rest
    else if ltb c 65_536
    then b'u' ∷ hex4 c rest
    else b'U' ∷ hex8 c rest

module _ (is_print : ℕ → Bool) where
  abbrev pub prints : ℕ → Bool
  prints c = if ltb c 128 then leb 32 c && leb c 126 else is_print c

  -- One code point, in front of what follows
  unfoldable pub quote_rune : ℕ → Text → Text
  unfolding letter_of
  quote_rune c rest =
      if c == b'"' || c == b'\\'
      then b'\\' ∷ c ∷ rest
      else if prints c
      then c ∷ rest
      else b'\\' ∷ letter_of c rest

  unfoldable pub quote_onto : Text → Text → Text
  unfolding quote_rune
  quote_onto [] rest = rest
  quote_onto (c ∷ s) rest = quote_rune c (quote_onto s rest)

  -- `strconv.Quote`
  unfoldable pub quote : Text → Text
  unfolding quote_onto
  quote s = b'"' ∷ quote_onto s (codes "\"")

quoted :
    quote (λ c. false) (codes "a\"\\" ++ (7 ∷ 27 ∷ 0xe9 ∷ []))
    ≡ codes "\"a\\\"\\\\\\a\\x1b\\u00e9\""
unfolding quote
quoted = refl
