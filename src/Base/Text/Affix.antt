-- ===== src/Base/Text/Affix.antt =====
-- Prefixes and suffixes.
use distil_proxy.Base.{
  ◌≡◌, refl, ap, ◌↔◌, true, [], ◌∷◌, ◌++◌, arith, some, ◌&&◌, ltb, length, ◌≢◌, Option-cases, inl,
  inr, ◌<◌, append-nil,
}
use distil_proxy.Base.Text.{Text, strip_prefix, has_prefix}

pub strip_prefix-append : (p s : Text) → strip_prefix p (p ++ s) ≡ some s
unfolding strip_prefix
strip_prefix-append [] s = refl
strip_prefix-append (c ∷ p) s = ground (arith, strip_prefix-append p s)

pub strip_prefix_sound : (p s : Text) {r : Text} → strip_prefix p s ≡ some r → s ≡ p ++ r
unfolding strip_prefix
strip_prefix_sound [] s h = cc
strip_prefix_sound (c ∷ p) [] h = cc
strip_prefix_sound (c ∷ p) (d ∷ s) {r} h = ground (arith, strip_prefix_sound p s {r = r})

length-lt-append : (p r : Text) → r ≢ [] → length p < length (p ++ r)
length-lt-append [] [] ne = absurd (ne refl)
length-lt-append [] (c ∷ r) ne = omega arith
length-lt-append (c ∷ p) r ne = omega (arith, length-lt-append p r ne)

has_prefix-append : (p r : Text) → has_prefix (p ++ r) p ≡ true
unfolding has_prefix
has_prefix-append p r = rw (strip_prefix-append p r)

append-nil_length : (p r : Text) → length p < length (p ++ r) → r ≢ []
append-nil_length p [] h = absurd (omega (arith, ap length (append-nil p)))
append-nil_length p (c ∷ r) h = λ e. cc

-- A proper prefix: `strings.HasPrefix(s, p) && len(s) > len(p)`.
pub has_prefix_proper :
    (p s : Text)
    → ((has_prefix s p && ltb (length p) (length s)) ≡ true)
      ↔ ((r : Text) × (r ≢ []) × (s ≡ p ++ r))
has_prefix_proper p s = (
  λ h. elim (Option-cases (strip_prefix p s)) [
    | inl e ↦ absurd (unfold has_prefix in ground arith)
    | inr (r, e) ↦
        let eq = strip_prefix_sound p s {r = r} e in
        (r, append-nil_length p r (unfold has_prefix in ground arith), eq)
  ],
  λ (r, ne, e). rw e (rw (has_prefix-append p r) (ground (arith, length-lt-append p r ne))),
)
