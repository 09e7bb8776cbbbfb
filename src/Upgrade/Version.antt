-- ===== src/Upgrade/Version.antt =====
-- internal/upgrade/version.go, and `normalizeUpgradeCurrentVersion` of internal/cli.
pub mod Order
pub mod Current
use distil_proxy.Base.{
  ℕ, zero, suc, ◌+◌, ◌≡◌, refl, Bool, true, false, ◌||◌, Option, none, some, List, [], ◌∷◌, ◌++◌,
  ltb, leb, ◌==◌, if◌then◌else◌, length,
}
use distil_proxy.Base.Int.{ℤ, pos, ltb_ℤ}
use distil_proxy.Base.Text.{Text, codes, trim_space, trim_prefix, split, is_empty}
use distil_proxy.Base.Text.Decimal.{atoi}

unfoldable pub normalize_version : Text → Text
unfolding trim_space trim_prefix
normalize_version version = trim_prefix (trim_space version) (codes "v")

-- The loop of `parseVersion`: a part that is no number makes the whole result `nil`.
pub parse_parts : List Text → List ℤ → List ℤ
parse_parts [] out = out
parse_parts (part ∷ parts) out = elim (atoi part) [
  | none ↦ []
  | some n ↦ parse_parts parts (out ++ n ∷ [])
]

unfoldable pub parse_version : Text → List ℤ
unfolding parse_parts split
parse_version version = parse_parts (split version b'.') []

-- `if i < len(parts) { x = parts[i] }`, with `x` at first 0.
pub component : List ℤ → ℕ → ℤ
component [] i = pos 0
component (n ∷ parts) zero = n
component (n ∷ parts) (suc i) = component parts i

-- The loop of `isNewerVersion` from round `i`, with `rounds` rounds left.
pub newer_from : ℕ → ℕ → List ℤ → List ℤ → Bool
unfolding component
newer_from zero i current_parts latest_parts = false
newer_from (suc rounds) i current_parts latest_parts =
    let cur = component current_parts i in
    let lat = component latest_parts i in
    let rest = newer_from rounds (i + 1) current_parts latest_parts in
    if ltb_ℤ cur lat then true else if ltb_ℤ lat cur then false else rest

pub newer_parts : List ℤ → List ℤ → Bool
unfolding newer_from
newer_parts current_parts latest_parts =
    if is_empty current_parts || is_empty latest_parts
    then false
    else newer_from 3 0 current_parts latest_parts

unfoldable pub is_newer_version : Text → Text → Bool
unfolding newer_parts parse_version normalize_version
is_newer_version current latest =
    newer_parts (parse_version (normalize_version current))
      (parse_version (normalize_version latest))

-- The loop of `normalizeUpgradeCurrentVersion` over the parts: is each of them a number?
pub all_numbers : List Text → Bool
all_numbers [] = true
all_numbers (part ∷ parts) =
    let rest = all_numbers parts in
    if is_empty part then false else elim (atoi part) [ none ↦ false | some _ ↦ rest ]

-- `normalizeUpgradeCurrentVersion` of internal/cli/commands_upgrade.go.
unfoldable pub normalize_upgrade_current_version : Text → Text
unfolding trim_space trim_prefix split all_numbers
normalize_upgrade_current_version current =
    let normalized = trim_space (trim_prefix current (codes "v")) in
    let parts = split normalized b'.' in
    if is_empty normalized || length parts == 0 || ltb 3 (length parts)
    then codes "0.0.0"
    else if all_numbers parts
    then normalized
    else codes "0.0.0"

newer_example : is_newer_version (codes "v1.9.0") (codes " 1.10 ") ≡ true
unfolding is_newer_version atoi
newer_example = refl

dev_example : is_newer_version (codes "dev") (codes "1.0.0") ≡ false
unfolding is_newer_version atoi
dev_example = refl
