-- ===== src/Base/Text.antt =====
-- Go's strings, as the lists of their code points (texts are taken to be valid UTF-8), and what
-- the program uses of the standard packages `strings`, `unicode`, `strconv` and `fmt`.
pub mod Trim
pub mod Affix
pub mod Decimal
pub mod Paths
use Prim.Native.Char.{code}
use Prim.Native.String.{String}
use distil_proxy.Base.{
  ℕ, zero, suc, ◌+◌, ◌-◌, ◌≡◌, refl, ◌↔◌, Bool, true, false, ◌&&◌, ◌||◌, not, Option, none, some,
  List, [], ◌∷◌, ◌++◌, map, arith, ltb, leb, ◌==◌, if◌then◌else◌, length, replicate,
}

abbrev pub Text : Type 0
Text = List ℕ

-- A file's or a body's bytes.
abbrev pub Bytes : Type 0
Bytes = List ℕ

abbrev pub codes : String → Text
codes String.[] = []
codes (String.◌∷◌ c s) = code c ∷ codes s

unfoldable pub text_eq : Text → Text → Bool
text_eq [] [] = true
text_eq (a ∷ s) (b ∷ t) = (a == b) && text_eq s t
text_eq _ _ = false

abbrev pub is_empty {ℓ} : {A : Type ℓ} → List A → Bool
is_empty [] = true
is_empty (x ∷ xs) = false

-- `unicode.IsSpace`
unfoldable pub is_space : ℕ → Bool
is_space c =
    (leb 9 c && leb c 13)
    || c == 32
    || c == 0x85
    || c == 0xa0
    || c == 0x1680
    || (leb 0x2000 c && leb c 0x200a)
    || c == 0x2028
    || c == 0x2029
    || c == 0x202f
    || c == 0x205f
    || c == 0x3000

unfoldable pub trim_left : Text → Text
trim_left [] = []
trim_left (c ∷ s) = let rest = trim_left s in if is_space c then rest else c ∷ s

unfoldable pub trim_right : Text → Text
trim_right [] = []
trim_right (c ∷ s) = let rest = trim_right s in if is_space c && is_empty rest then [] else c ∷ rest

-- `strings.TrimSpace`
unfoldable pub trim_space : Text → Text
unfolding trim_left trim_right is_space
trim_space s = trim_right (trim_left s)

-- The rest of a text behind a prefix.
unfoldable pub strip_prefix : Text → Text → Option Text
strip_prefix [] s = some s
strip_prefix (p ∷ ps) [] = none
strip_prefix (p ∷ ps) (c ∷ s) = if p == c then strip_prefix ps s else none

abbrev pub is_some {ℓ} : {A : Type ℓ} → Option A → Bool
is_some none = false
is_some (some a) = true

-- `strings.HasPrefix` and `strings.TrimPrefix`
unfoldable pub has_prefix : Text → Text → Bool
unfolding strip_prefix
has_prefix s prefix = is_some (strip_prefix prefix s)

unfoldable pub trim_prefix : Text → Text → Text
unfolding strip_prefix
trim_prefix s prefix = elim (strip_prefix prefix s) [ none ↦ s | some rest ↦ rest ]

abbrev map_cons : ℕ → Option Text → Option Text
map_cons c none = none
map_cons c (some s) = some (c ∷ s)

-- The text before a suffix: what `strings.HasSuffix` with `strings.TrimSuffix` gives.
unfoldable pub strip_suffix : Text → Text → Option Text
unfolding text_eq
strip_suffix suffix [] = if text_eq [] suffix then some [] else none
strip_suffix suffix (c ∷ s) =
    let rest = strip_suffix suffix s in if text_eq (c ∷ s) suffix then some [] else map_cons c rest

-- What stands before and behind the last occurrence, as `strings.LastIndex` finds it.
unfoldable pub cut_last : Text → Text → Option (Text × Text)
unfolding strip_prefix
cut_last sub [] = none
cut_last sub (c ∷ s) = elim (cut_last sub s) [
  | some (before, behind) ↦ some (c ∷ before, behind)
  | none ↦ elim (strip_prefix sub (c ∷ s)) [ none ↦ none | some behind ↦ some ([], behind) ]
]

-- `strings.Split` by one character.
abbrev add_to_head : ℕ → List Text → List Text
add_to_head c [] = (c ∷ []) ∷ []
add_to_head c (p ∷ ps) = (c ∷ p) ∷ ps

unfoldable pub split : Text → ℕ → List Text
split [] sep = [] ∷ []
split (c ∷ s) sep = if c == sep then [] ∷ split s sep else add_to_head c (split s sep)

-- `strings.Join`
unfoldable pub join : List Text → Text → Text
join [] sep = []
join (p ∷ []) sep = p
join (p ∷ q ∷ ps) sep = p ++ (sep ++ join (q ∷ ps) sep)

-- Each line with a line feed behind it
abbrev pub lines : List Text → Text
lines [] = []
lines (l ∷ ls) = l ++ (10 ∷ lines ls)

-- `%-ns` of package fmt, which counts code points
abbrev pub pad_right : ℕ → Text → Text
pad_right n s = s ++ replicate (n - length s) b' '

-- `strings.ToLower`, for what is compared with ASCII words: the two code points outside ASCII
-- whose lower case is in ASCII are U+0130 and U+212A. Other letters outside ASCII are kept.
unfoldable pub lower : ℕ → ℕ
lower c =
    if leb b'A' c && leb c b'Z'
    then c + 32
    else if c == 0x130
    then b'i'
    else if c == 0x212a
    then b'k'
    else c

unfoldable pub to_lower : Text → Text
unfolding lower
to_lower s = map lower s

-- `strings.EqualFold`, against an ASCII text: U+017F folds to `s`, U+212A to `k`.
fold : ℕ → ℕ
fold c =
    if leb b'A' c && leb c b'Z'
    then c + 32
    else if c == 0x17f
    then b's'
    else if c == 0x212a
    then b'k'
    else c

unfoldable pub equal_fold : Text → Text → Bool
unfolding text_eq fold
equal_fold s t = text_eq (map fold s) (map fold t)

-- `strings.TrimRight(s, "/")`
unfoldable pub trim_slashes : Text → Text
trim_slashes [] = []
trim_slashes (c ∷ s) =
    let rest = trim_slashes s in if c == b'/' && is_empty rest then [] else c ∷ rest

pub text_eq_iff : (s t : Text) → (text_eq s t ≡ true) ↔ (s ≡ t)
unfolding text_eq
text_eq_iff [] [] = (λ _. refl, λ _. refl)
text_eq_iff [] (b ∷ t) = (λ h. cc, λ h. cc)
text_eq_iff (a ∷ s) [] = (λ h. cc, λ h. cc)
text_eq_iff (a ∷ s) (b ∷ t) = ground (arith, text_eq_iff s t)
