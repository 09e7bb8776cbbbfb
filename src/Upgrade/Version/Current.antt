-- ===== src/Upgrade/Version/Current.antt =====
-- The version that the `upgrade` command compares with.
use mathlib.Core.List.{concat-ne-nil}
use distil_proxy.Base.{
  ◌≡◌, refl, ◌≢◌, true, false, List, [], ◌∷◌, ◌++◌, arith, Bool-cases, inl, inr, ℕ, ltb, ◌==◌, ◌||◌,
  length, none, some, Option-cases,
}
use distil_proxy.Base.Int.{ℤ}
use distil_proxy.Base.Text.{Text, codes, trim_space, trim_prefix, split, is_empty}
use distil_proxy.Base.Text.Decimal.{atoi}
use distil_proxy.Base.Text.Trim.{trim_space_idem}
use distil_proxy.Upgrade.Version.{
  parse_parts, parse_version, normalize_version, all_numbers, normalize_upgrade_current_version,
}

atoi_v : (s : Text) → atoi (b'v' ∷ s) ≡ none
unfolding atoi
atoi_v s = refl

all_numbers-cons :
    (part : Text) (parts : List Text)
    → all_numbers (part ∷ parts) ≡ true
    → (n : ℤ) × (atoi part ≡ some n) × (all_numbers parts ≡ true)
unfolding all_numbers
all_numbers-cons part parts h = elim (Option-cases (atoi part)) [
  | inl e ↦ absurd (ground arith)
  | inr (n, e) ↦ (n, e, ground arith)
]

parse_parts-ne-nil :
    (parts : List Text) (out : List ℤ)
    → all_numbers parts ≡ true
    → out ≢ []
    → parse_parts parts out ≢ []
unfolding parse_parts
parse_parts-ne-nil [] out _ ne = ne
parse_parts-ne-nil (part ∷ parts) out h ne =
    let (n, e, rest) = all_numbers-cons part parts h in
    rw (e, parse_parts) (parse_parts-ne-nil parts (out ++ n ∷ []) rest (concat-ne-nil n out))

parse_parts_of_numbers :
    (parts : List Text) → parts ≢ [] → all_numbers parts ≡ true → parse_parts parts [] ≢ []
unfolding parse_parts
parse_parts_of_numbers [] ne _ = λ _. ne refl
parse_parts_of_numbers (part ∷ parts) ne h =
    let (n, e, rest) = all_numbers-cons part parts h in
    rw (e, parse_parts) (parse_parts-ne-nil parts (n ∷ []) rest (concat-ne-nil n []))

split-ne-nil : (s : Text) (sep : ℕ) → split s sep ≢ []
unfolding split
split-ne-nil [] sep = λ e. cc
split-ne-nil (c ∷ s) sep = ground arith

split_v : (s : Text) → all_numbers (split (b'v' ∷ s) b'.') ≡ false
unfolding split all_numbers atoi
split_v s = ground arith

trim_prefix_of_numbers :
    (s : Text) → all_numbers (split s b'.') ≡ true → trim_prefix s (codes "v") ≡ s
unfolding trim_prefix
trim_prefix_of_numbers [] h = refl
trim_prefix_of_numbers (c ∷ s) h = elim (Bool-cases (b'v' == c)) [
  | inl v ↦ ground (arith, split_v s)
  | inr other ↦ ground arith
]

parse_of_numbers :
    (s : Text)
    → trim_space s ≡ s
    → all_numbers (split s b'.') ≡ true
    → parse_version (normalize_version s) ≢ []
unfolding parse_version normalize_version
parse_of_numbers s trimmed h =
    rw (trimmed, trim_prefix_of_numbers s h) (parse_parts_of_numbers _ (split-ne-nil s b'.') h)

zero_parses : parse_version (normalize_version (codes "0.0.0")) ≢ []
unfolding parse_version normalize_version atoi
zero_parses = λ e. cc

-- The `upgrade` command always compares with a version that has at least one number: whatever
-- the build calls itself, `isNewerVersion` can read what `normalizeUpgradeCurrentVersion` returns.
pub normalize_upgrade_current_version_parses :
    (current : Text)
    → parse_version (normalize_version (normalize_upgrade_current_version current)) ≢ []
unfolding normalize_upgrade_current_version
normalize_upgrade_current_version_parses current =
    let s = trim_space (trim_prefix current (codes "v")) in
    let parts = split s b'.' in
    elim (Bool-cases (is_empty s || length parts == 0 || ltb 3 (length parts))) [
      | inl odd ↦ rw odd zero_parses
      | inr fine ↦ rw fine (elim (Bool-cases (all_numbers parts)) [
        | inl numbers ↦
            rw numbers
              (parse_of_numbers s (trim_space_idem (trim_prefix current (codes "v"))) numbers)
        | inr other ↦ rw other zero_parses
      ])
    ]
