-- ===== src/Platform/Template/Quoted.antt =====
-- The quoted path in the unit of internal/platform/service_templates.go. It is read by Go's rules for a string; the
-- specifiers with `%`, which systemd replaces behind that, are not modelled.
use distil_proxy.Base.{
  ℕ, ◌<◌, ◌==◌, ◌≡◌, Bool, true, Option, none, some, [], ◌∷◌, ◌++◌, All, if◌then◌else◌,
}
use distil_proxy.Base.Text.{Text, codes, strip_prefix}
use distil_proxy.Platform.Quote.Reads.{read_quoted, read_quote}
use distil_proxy.Platform.Template.{exec_path, unit_tail, systemd_user_unit}

-- The value of a key, from the line that begins with it
unfoldable pub value_of : Text → Bool → Text → Option Text
unfolding strip_prefix
value_of key starts [] = none
value_of key starts (c ∷ s) =
    let rest = value_of key (c == 10) s in
    if starts
    then elim (strip_prefix key (c ∷ s)) [ none ↦ rest | some value ↦ some value ]
    else rest

-- The text in quotes behind `ExecStart=`, and the arguments with what follows
unfoldable pub command_of : Text → Option (Text × Text)
unfolding value_of
command_of unit = elim (value_of (codes "ExecStart=") true unit) [
  | none ↦ none
  | some value ↦ read_quoted value
]

-- By Go's rules for a string, the text in quotes behind `ExecStart=` is the path of the executable under the home
-- directory, if its code points are below 2^32, and ` start --foreground` follows.
pub systemd_user_unit-quoted :
    (is_print : ℕ → Bool) (home_dir : Text)
    → All (λ c. c < 4_294_967_296) (exec_path home_dir)
    → command_of (systemd_user_unit is_print home_dir)
      ≡ some (exec_path home_dir, codes " start --foreground" ++ (10 ∷ unit_tail))
unfolding command_of systemd_user_unit
systemd_user_unit-quoted is_print home_dir h = read_quote is_print (exec_path home_dir) _ h
