-- ===== src/Cli/Duration.antt =====
-- `humanDuration` of internal/cli/status.go.
pub mod Reads
use distil_proxy.Base.{
  ℕ, ◌+◌, ◌/◌, ◌%◌, Bool, true, false, not, ◌||◌, ltb, List, [], ◌∷◌, ◌++◌, map, if◌then◌else◌,
}
use distil_proxy.Base.Int.{ℤ, pos, pos_part, leb_ℤ}
use distil_proxy.Base.Text.{Text, codes, join, is_empty}
use distil_proxy.Base.Text.Decimal.{print_ℕ}

-- A number with its unit.
pub record Part : Type 0 where
  pub amount : ℕ
  pub unit_sign : ℕ

-- `fmt.Sprintf("%dh", …)`
unfoldable pub show_part : Part → Text
show_part p = print_ℕ p.amount ++ p.unit_sign ∷ []

-- `parts = append(parts, …)` if the amount is above 0 or there are parts already
unfoldable pub with_part : ℕ → ℕ → List Part → List Part
with_part sign n parts =
    if ltb 0 n || not (is_empty parts)
    then parts ++ record { amount = n; unit_sign = sign } ∷ []
    else parts

unfoldable pub duration_parts : ℕ → List Part
duration_parts seconds =
    let rest = seconds % 86400 in
    let days = with_part b'd' (seconds / 86400) [] in
    let hours = with_part b'h' (rest / 3600) days in
    let minutes = with_part b'm' (rest % 3600 / 60) hours in
    minutes ++ record { amount = rest % 3600 % 60; unit_sign = b's' } ∷ []

-- `humanDuration`
unfoldable pub human_duration : ℤ → Text
human_duration seconds =
    if leb_ℤ seconds (pos 0)
    then codes "0s"
    else join (map show_part (duration_parts (pos_part seconds))) (codes " ")
