-- ===== src/Base/Text/Trim.antt =====
-- `strings.TrimSpace`.
use distil_proxy.Base.{
  ◌≡◌, refl, ◌≢◌, true, false, [], ◌∷◌, ◌++◌, arith, Bool-cases, inl, inr, All, ℕ,
}
use distil_proxy.Base.Text.{Text, is_space, is_empty, trim_left, trim_right, trim_space}

-- A text that neither begins nor ends with a space.
abbrev pub IsBlack : Text → Type 0
IsBlack = All (λ c. is_space c ≡ false)

trim_right-IsBlack : (s : Text) → IsBlack s → trim_right s ≡ s
unfolding trim_right
trim_right-IsBlack [] _ = refl
trim_right-IsBlack (c ∷ s) (h, hs) = ground (arith, trim_right-IsBlack s hs)

trim_left-IsBlack : (s : Text) → IsBlack s → trim_left s ≡ s
unfolding trim_left
trim_left-IsBlack [] _ = refl
trim_left-IsBlack (c ∷ s) (h, hs) = rw h

trim_left-append_IsBlack : (s t : Text) → IsBlack s → s ≢ [] → trim_left (s ++ t) ≡ s ++ t
unfolding trim_left
trim_left-append_IsBlack [] t _ ne = absurd (ne refl)
trim_left-append_IsBlack (c ∷ s) t (h, _) _ = rw h

trim_right-append_space :
    (s : Text) (c : ℕ) → is_space c ≡ true → trim_right (s ++ c ∷ []) ≡ trim_right s
unfolding trim_right
trim_right-append_space [] c h = rw h
trim_right-append_space (d ∷ s) c h = rw (trim_right-append_space s c h)

-- A text of visible characters is read back from a line that holds it.
pub trim_space-line :
    (s : Text) (c : ℕ) → IsBlack s → s ≢ [] → is_space c ≡ true → trim_space (s ++ c ∷ []) ≡ s
unfolding trim_space
trim_space-line s c h ne sp =
    rw (trim_left-append_IsBlack s (c ∷ []) h ne, trim_right-append_space s c sp)
      (trim_right-IsBlack s h)

pub trim_space-IsBlack : (s : Text) → IsBlack s → trim_space s ≡ s
unfolding trim_space
trim_space-IsBlack s h = rw (trim_left-IsBlack s h) (trim_right-IsBlack s h)

trim_right_idem : (s : Text) → trim_right (trim_right s) ≡ trim_right s
unfolding trim_right
trim_right_idem [] = refl
trim_right_idem (c ∷ s) = ground (arith, trim_right_idem s)

trim_left-trim_right : (s : Text) → trim_left (trim_right (trim_left s)) ≡ trim_right (trim_left s)
unfolding trim_left trim_right
trim_left-trim_right [] = refl
trim_left-trim_right (c ∷ s) = elim (Bool-cases (is_space c)) [
  | inl space ↦ rw space (trim_left-trim_right s)
  | inr black ↦ rw black (ground arith)
]

pub trim_space_idem : (s : Text) → trim_space (trim_space s) ≡ trim_space s
unfolding trim_space
trim_space_idem s = rw (trim_left-trim_right s) (trim_right_idem (trim_left s))

pub trim_space-black_head :
    (c : ℕ) (s : Text) → is_space c ≡ false → is_empty (trim_space (c ∷ s)) ≡ false
unfolding trim_space trim_left trim_right
trim_space-black_head c s h = ground (arith)
