-- ===== src/Upgrade/Version/Order.antt =====
-- `isNewerVersion` of internal/upgrade/version.go and the order of the first three numbers.
use distil_proxy.Base.{◌≡◌, ◌≢◌, ◌↔◌, ◌⊎◌, Bool, true, false, List, [], ◌∷◌, arith}
use distil_proxy.Base.Int.{ℤ, ◌<ℤ◌}
use distil_proxy.Base.Text.{Text}
use distil_proxy.Upgrade.Version.{
  component, newer_from, newer_parts, is_newer_version, parse_version, normalize_version,
}

-- The numbers of a version, as the program reads them.
abbrev pub numbers : Text → List ℤ
numbers version = parse_version (normalize_version version)

-- Both texts are versions, and the second is above the first.
abbrev Above : List ℤ → List ℤ → Type 0
Above c l =
    (component c 0 <ℤ component l 0)
    ⊎ (component c 0 ≡ component l 0) × (component c 1 <ℤ component l 1)
    ⊎ (component c 0 ≡ component l 0)
      × (component c 1 ≡ component l 1)
      × (component c 2 <ℤ component l 2)

abbrev pub IsNewer : List ℤ → List ℤ → Type 0
IsNewer c l = (c ≢ []) × (l ≢ []) × Above c l

false_of_not : {b : Bool} → ¬ (b ≡ true) → b ≡ false
false_of_not h = ground arith

newer_from_iff : (c l : List ℤ) → (newer_from 3 0 c l ≡ true) ↔ Above c l
unfolding newer_from
newer_from_iff c l = ground arith

newer_parts_iff : (c l : List ℤ) → (newer_parts c l ≡ true) ↔ IsNewer c l
unfolding newer_parts
newer_parts_iff [] l = ground arith
newer_parts_iff (c ∷ cs) [] = ground arith
newer_parts_iff (c ∷ cs) (l ∷ ls) = ground (arith, newer_from_iff (c ∷ cs) (l ∷ ls))

-- `isNewerVersion` answers true exactly when both texts are versions and the first three numbers
-- of `latest`, an absent one read as 0, are lexicographically above those of `current`.
pub is_newer_version_iff :
    (current latest : Text)
    → (is_newer_version current latest ≡ true) ↔ IsNewer (numbers current) (numbers latest)
unfolding is_newer_version
is_newer_version_iff current latest = newer_parts_iff (numbers current) (numbers latest)

Above-trans : (a b c : List ℤ) → Above a b → Above b c → Above a c
Above-trans a b c h k = ground arith

Above-asym : (a b : List ℤ) → Above a b → ¬ Above b a
Above-asym a b h k = ground arith

-- A release that is newer than one newer than the installed version is newer than that, and no
-- version is newer than one that is newer than it: upgrades go in one direction.
pub is_newer_version_order :
    (a b c : Text)
    → is_newer_version a b ≡ true
    → is_newer_version b c ≡ true
    → (is_newer_version a c ≡ true) × (is_newer_version b a ≡ false)
is_newer_version_order a b c h k =
    let (a_parsed, b_parsed, up) = (is_newer_version_iff a b).0 h in
    let (_, c_parsed, up') = (is_newer_version_iff b c).0 k in
    (
      (is_newer_version_iff a c).1 (a_parsed, c_parsed, Above-trans _ _ _ up up'),
      false_of_not λ e. Above-asym _ _ up ((is_newer_version_iff b a).0 e).2,
    )
