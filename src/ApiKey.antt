-- ===== src/ApiKey.antt =====
-- The form of an API key, which internal/config and internal/ws both check.
use distil_proxy.Base.{
  ◌≡◌, refl, ◌↔◌, ◌⊎◌, inl, inr, ◌≢◌, Bool, true, false, [], ◌++◌, ltb, length, ◌&&◌, ◌||◌,
  if◌then◌else◌,
}
use distil_proxy.Base.Text.{Text, codes, has_prefix}
use distil_proxy.Base.Text.Affix.{has_prefix_proper}

-- A key is `dk_` or `dpk_` with something behind it.
abbrev pub IsApiKey : Text → Type 0
IsApiKey key =
    ((r : Text) × (r ≢ []) × (key ≡ codes "dk_" ++ r))
    ⊎ ((r : Text) × (r ≢ []) × (key ≡ codes "dpk_" ++ r))

or_iff : {P Q : Type 0} (a b : Bool) → (a ≡ true) ↔ P → (b ≡ true) ↔ Q → ((a || b) ≡ true) ↔ (P ⊎ Q)
or_iff true b p q = (λ _. inl (p.0 refl), λ _. refl)
or_iff false true p q = (λ _. inr (q.0 refl), λ _. refl)
or_iff false false p q = (λ e. cc, λ h. elim h [ inl x ↦ p.1 x | inr y ↦ q.1 y ])

pub key_test_iff :
    (key : Text)
    → ((has_prefix key (codes "dk_") && ltb 3 (length key)
          || has_prefix key (codes "dpk_") && ltb 4 (length key))
        ≡ true)
      ↔ IsApiKey key
key_test_iff key =
    or_iff _ _ (has_prefix_proper (codes "dk_") key) (has_prefix_proper (codes "dpk_") key)

pub if_or : (a b : Bool) → (if a then true else if b then true else false) ≡ (a || b)
if_or true b = refl
if_or false true = refl
if_or false false = refl
