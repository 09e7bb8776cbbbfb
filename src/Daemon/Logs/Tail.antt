-- ===== src/Daemon/Logs/Tail.antt =====
-- `ReadLogTail` returns the last lines of the file.
use native.Mathlib.Nat.{mod-lt, mod-eq_of_lt, mod-add-mod, mod-eq-sub-mod}
use native.Mathlib.Nat.{add-mod_right}
use native.Mathlib.Decide.{dec_lt}
use mathlib.Core.Path.{subst, ap₂}
use distil_proxy.Base.{
  Bool-cases, inl, inr, append_assoc, append-nil, ℕ, zero, suc, ◌+◌, ◌-◌, ◌%◌, ◌≤◌, ◌<◌, ◌≡◌, ◌≢◌,
  refl, sym, ap, ◌∙◌, true, false, Option, none, some, List, [], ◌∷◌, ◌++◌, arith, leb, ◌==◌,
  if◌then◌else◌, length, set, take, drop, replicate, length-append,
}
use distil_proxy.Base.Text.{Text, is_empty}
use distil_proxy.Base.Int.{pos, leb_ℤ}
use distil_proxy.Daemon.Logs.{
  LogError, lines, failed, read_failure, Chunks, chunk, end_of_file, read_error, Ring, store_line,
  read_ring, get_or, rotate_from, ring_tail, trim_trailing_empty, read_log_tail,
}

mod_shift : (n r d : ℕ) → r < n → 0 < d → d < n → (r + d) % n ≢ r
mod_shift n r d a b c e = grind (arith, mod-eq_of_lt, mod-eq-sub-mod)

mod_ne_of_lt : (n j d : ℕ) → 0 < d → d < n → (j + d) % n ≢ j % n
mod_ne_of_lt n j d h k e =
    mod_shift n (j % n) d (mod-lt j (omega arith)) h k (mod-add-mod j n d ∙ e)

length-set : (xs : List Text) (i : ℕ) (v : Text) → length (set xs i v) ≡ length xs
length-set [] i v = refl
length-set (x ∷ xs) zero v = refl
length-set (x ∷ xs) (suc i) v = ap suc (length-set xs i v)

get_or-set_self : (xs : List Text) (i : ℕ) (v : Text) → i < length xs → get_or (set xs i v) i [] ≡ v
get_or-set_self [] i v h = elim h [ ]
get_or-set_self (x ∷ xs) zero v h = refl
get_or-set_self (x ∷ xs) (suc i) v h = get_or-set_self xs i v (omega arith)

get_or-set_ne :
    (xs : List Text) (i j : ℕ) (v : Text) → i ≢ j → get_or (set xs i v) j [] ≡ get_or xs j []
get_or-set_ne [] i j v h = refl
get_or-set_ne (x ∷ xs) zero zero v h = absurd (h refl)
get_or-set_ne (x ∷ xs) zero (suc j) v h = refl
get_or-set_ne (x ∷ xs) (suc i) zero v h = refl
get_or-set_ne (x ∷ xs) (suc i) (suc j) v h = get_or-set_ne xs i j v (λ e. h (ap suc e))

get_or-append_left :
    (xs ys : List Text) (i : ℕ) → i < length xs → get_or (xs ++ ys) i [] ≡ get_or xs i []
get_or-append_left [] ys i h = elim h [ ]
get_or-append_left (x ∷ xs) ys zero h = refl
get_or-append_left (x ∷ xs) ys (suc i) h = get_or-append_left xs ys i (omega arith)

get_or-append_last : (xs : List Text) (y : Text) → get_or (xs ++ y ∷ []) (length xs) [] ≡ y
get_or-append_last [] y = refl
get_or-append_last (x ∷ xs) y = get_or-append_last xs y

-- The ring holds the last `n` of the lines stored so far.
record Holds (n : ℕ) (ls : List Text) (r : Ring) : Type 0 where
  size : length r.lines ≡ n
  counted : r.count ≡ length ls
  holds : (j : ℕ) → j < length ls → length ls ≤ j + n → get_or r.lines (j % n) [] ≡ get_or ls j []

mod_ne : (n j c : ℕ) → j < c → c < j + n → c % n ≢ j % n
mod_ne n j c lt near e =
    mod_ne_of_lt n j (c - j) (omega arith) (omega arith) (ap (λ x. x % n) (together) ∙ e)
  where
    together : j + (c - j) ≡ c
    together = omega arith

-- The slot of the newest line, and those of the lines that are still held.
newest :
    (n : ℕ) (ring : List Text) (c : ℕ) (v : Text)
    → 0 < n
    → length ring ≡ n
    → get_or (set ring (c % n) v) (c % n) [] ≡ v
newest n ring c v room size = get_or-set_self ring (c % n) v (omega (arith, mod-lt c room))

older :
    (n : ℕ) (ring : List Text) (c j : ℕ) (v : Text)
    → j < c
    → c < j + n
    → get_or (set ring (c % n) v) (j % n) [] ≡ get_or ring (j % n) []
older n ring c j v lt near = get_or-set_ne ring (c % n) (j % n) v (mod_ne n j c lt near)

stored :
    (n : ℕ) (ls ring : List Text) (v : Text) (j : ℕ)
    → 0 < n
    → length ring ≡ n
    → ((j : ℕ) → j < length ls → length ls ≤ j + n → get_or ring (j % n) [] ≡ get_or ls j [])
    → j < length (ls ++ v ∷ [])
    → length (ls ++ v ∷ []) ≤ j + n
    → get_or (set ring (length ls % n) v) (j % n) [] ≡ get_or (ls ++ v ∷ []) j []
stored n ls ring v j room size held a b = elim (dec_lt j (length ls)) [
  | yes lt ↦
      older n ring (length ls) j v lt (omega (arith, length-append ls (v ∷ [])))
      ∙ held j lt (omega (arith, length-append ls (v ∷ [])))
      ∙ sym (get_or-append_left ls (v ∷ []) j lt)
  | no ge ↦
      let e : j ≡ length ls = omega (arith, length-append ls (v ∷ [])) in
      rw e (newest n ring (length ls) v room size ∙ sym (get_or-append_last ls v))
]

store_line-Holds :
    (n : ℕ) (ls : List Text) (r : Ring)
    → 0 < n
    → Holds n ls r
    → Holds n (ls ++ r.builder ∷ []) (store_line n r)
unfolding store_line
store_line-Holds n ls r room h = record {
  size = length-set r.lines (r.count % n) r.builder ∙ h.size;
  counted = omega (arith, h.counted, length-append ls (r.builder ∷ []));
  holds = λ j a b. rw h.counted (stored n ls r.lines r.builder j room h.size h.holds a b);
}

-- The lines of a file, with what has been read of the first one; `none` where a read fails.
abbrev prepend : Text → Option (List Text) → Option (List Text)
prepend line none = none
prepend line (some rest) = some (line ∷ rest)

unfoldable pub lines_from : Text → Chunks → Option (List Text)
lines_from before (chunk text is_prefix rest) =
    if is_prefix
    then lines_from (before ++ text) rest
    else prepend (before ++ text) (lines_from [] rest)
lines_from before end_of_file = some (if is_empty before then [] else before ∷ [])
lines_from before (read_error e) = none

abbrev Reads : ℕ → List Text → Option Ring → Option (List Text) → Type 0
Reads n ls (some r) (some more) = Holds n (ls ++ more) r
Reads n ls none none = Unit
Reads n ls _ _ = ⊥

Reads-prepend :
    (n : ℕ) (ls : List Text) (line : Text) (r : Option Ring) (more : Option (List Text))
    → Reads n (ls ++ line ∷ []) r more
    → Reads n ls r (prepend line more)
Reads-prepend n ls line none none h = tt
Reads-prepend n ls line none (some more) h = h
Reads-prepend n ls line (some r) none h = h
Reads-prepend n ls line (some r) (some more) h =
    subst (λ l. Holds n l r) (append_assoc ls (line ∷ []) more) h

Holds-builder :
    (n : ℕ) (ls : List Text) (r : Ring) (b : Text)
    → Holds n ls r
    → Holds n ls (record r { builder = b })
Holds-builder n ls r b h = record { size = h.size; counted = h.counted; holds = h.holds }

read_ring-Reads :
    (n : ℕ) (file : Chunks) (ls : List Text) (r : Ring)
    → 0 < n
    → Holds n ls r
    → Reads n ls (read_ring n file r) (lines_from r.builder file)
unfolding read_ring lines_from
read_ring-Reads n (chunk text true rest) ls r room h =
    read_ring-Reads n rest ls (record r { builder = r.builder ++ text }) room
      (Holds-builder n ls r _ h)
read_ring-Reads n (chunk text false rest) ls r room h =
    let t = record r { builder = r.builder ++ text } in
    Reads-prepend n ls t.builder _ _ (
      read_ring-Reads n rest (ls ++ t.builder ∷ []) (store_line n t) room
        (store_line-Holds n ls t room (Holds-builder n ls r _ h)))
read_ring-Reads n end_of_file ls r room h = elim (Bool-cases (is_empty r.builder)) [
  | inl nothing ↦ rw nothing (rw append-nil h)
  | inr something ↦ rw something (store_line-Holds n ls r room h)
]
read_ring-Reads n (read_error e) ls r room h = tt

-- The ring in order.
drop-cons : (k : ℕ) (ls : List Text) → k < length ls → drop k ls ≡ get_or ls k [] ∷ drop (suc k) ls
drop-cons zero [] h = elim h [ ]
drop-cons zero (x ∷ ls) h = refl
drop-cons (suc k) [] h = elim h [ ]
drop-cons (suc k) (x ∷ ls) h = drop-cons k ls (omega arith)

drop_all : (k : ℕ) (ls : List Text) → length ls ≤ k → drop k ls ≡ []
drop_all zero [] h = refl
drop_all zero (x ∷ ls) h = absurd (omega arith)
drop_all (suc k) [] h = refl
drop_all (suc k) (x ∷ ls) h = drop_all k ls (omega arith)

slot : (n c i : ℕ) → n ≤ c → (c % n + i) % n ≡ (c - n + i) % n
slot n c i h = mod-add-mod c n i ∙ ap (λ x. x % n) together ∙ add-mod_right (c - n + i) n
  where
    together : c + i ≡ c - n + i + n
    together = omega arith

rotate_from-drop :
    (n : ℕ) (ls : List Text) (r : Ring) (i rounds : ℕ)
    → Holds n ls r
    → n ≤ r.count
    → i + rounds ≡ n
    → rotate_from r.lines (r.count % n) n i rounds ≡ drop (r.count - n + i) ls
unfolding rotate_from
rotate_from-drop n ls r i zero h full e =
    sym (drop_all (r.count - n + i) ls (omega (arith, h.counted)))
rotate_from-drop n ls r i (suc rounds) h full e =
    rw (drop-cons (r.count - n + i) ls (omega (arith, h.counted)), slot n r.count i full)
      (ap₂ (λ x xs. x ∷ xs)
        (h.holds (r.count - n + i) (omega (arith, h.counted)) (omega (arith, h.counted)))
        (rotate_from-drop n ls r (i + 1) rounds h full (omega arith) ∙ ap (λ k. drop k ls) next))
  where
    next : r.count - n + (i + 1) ≡ suc (r.count - n + i)
    next = omega arith

take_of_get_or :
    (ring ls : List Text)
    → length ls ≤ length ring
    → ((j : ℕ) → j < length ls → get_or ring j [] ≡ get_or ls j [])
    → take (length ls) ring ≡ ls
take_of_get_or ring [] h same = refl
take_of_get_or [] (l ∷ ls) h same = absurd (omega arith)
take_of_get_or (x ∷ ring) (l ∷ ls) h same =
    ap₂ (λ x xs. x ∷ xs) (same 0 (omega arith))
      (take_of_get_or ring ls (omega arith) (λ j lt. same (suc j) (omega arith)))

abbrev last_lines : ℕ → List Text → List Text
last_lines n ls = drop (length ls - n) ls

drop_zero : (k : ℕ) (ls : List Text) → k ≡ 0 → drop k ls ≡ ls
drop_zero k ls e = rw e

unturned :
    (n : ℕ) (ls : List Text) (r : Ring)
    → Holds n ls r
    → r.count ≤ n
    → (j : ℕ) → j < length ls
    → get_or r.lines j [] ≡ get_or ls j []
unturned n ls r h short j lt =
    ap (λ k. get_or r.lines k []) (sym (mod-eq_of_lt (omega (arith, h.counted))))
    ∙ h.holds j lt (omega (arith, h.counted))

ring_tail-last_lines :
    (n : ℕ) (ls : List Text) (r : Ring)
    → Holds n ls r
    → ring_tail n r ≡ trim_trailing_empty (last_lines n ls)
unfolding ring_tail
ring_tail-last_lines n ls r h = elim (Bool-cases (r.count == 0)) [
  | inl nothing ↦ rw nothing (rw (drop_all (length ls - n) ls (ground (arith, h.counted))) refl)
  | inr something ↦ elim (Bool-cases (leb r.count n)) [
    | inl short ↦
        rw (something, ring_tail, short)
          (ap trim_trailing_empty (
            ap (λ k. take k r.lines) h.counted
            ∙ take_of_get_or r.lines ls (ground (arith, h.counted, h.size))
                (unturned n ls r h (ground arith))
            ∙ sym (drop_zero (length ls - n) ls (ground (arith, h.counted)))))
    | inr long ↦
        rw (something, ring_tail, long)
          (ap trim_trailing_empty (
            rotate_from-drop n ls r 0 n h (ground arith) (omega arith)
            ∙ ap (λ k. drop k ls) (omega (arith, h.counted))))
  ]
]

no_lines : (n : ℕ) → Holds n [] (record { lines = replicate n []; count = 0; builder = [] })
no_lines n = record { size = length-replicate n; counted = refl; holds = λ j lt. elim lt [ ] }
  where
    length-replicate : (n : ℕ) → length (replicate {A = Text} n []) ≡ n
    length-replicate zero = refl
    length-replicate (suc n) = ap suc (length-replicate n)

Reads-lines :
    (n : ℕ) (file : Chunks) (r : Option Ring) (ls : Option (List Text)) (e : LogError)
    → Reads n [] r ls
    → (elim r [ some t ↦ lines (ring_tail n t) | none ↦ failed e ])
      ≡ (elim ls [ some l ↦ lines (trim_trailing_empty (last_lines n l)) | none ↦ failed e ])
Reads-lines n file none none e h = refl
Reads-lines n file none (some l) e h = elim h [ ]
Reads-lines n file (some t) none e h = elim h [ ]
Reads-lines n file (some t) (some l) e h = ap lines (ring_tail-last_lines n l t h)

-- For a positive number of lines, `ReadLogTail` returns the last lines of the file, at most as many
-- as asked for, without the empty ones at their end; and a read error makes it fail.
pub read_log_tail_lem :
    (n : ℕ) (file : Chunks)
    → read_log_tail (pos (suc n)) file ≡ elim (lines_from [] file) [
      | some ls ↦ lines (trim_trailing_empty (last_lines (suc n) ls))
      | none ↦ failed (read_failure file)
    ]
unfolding read_log_tail
read_log_tail_lem n file =
    let size = suc n in
    let positive : leb_ℤ (pos (suc n)) (pos 0) ≡ false = ground arith in
    rw (positive, read_log_tail)
      (Reads-lines size file _ _ (read_failure file) (
        read_ring-Reads size file [] (record { lines = replicate size []; count = 0; builder = [] })
          (omega arith) (no_lines size)))
