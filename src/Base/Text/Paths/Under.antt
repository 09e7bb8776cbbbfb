-- ===== src/Base/Text/Paths/Under.antt =====
-- A file's path in a directory, where the directory's path begins with a slash.
use mathlib.Core.List.{reverse, reverse-cons, reverse-reverse}
use mathlib.Core.Path.{subst}
use distil_proxy.Base.{
  ◌==◌, ◌≡◌, refl, sym, ap, ◌∙◌, Bool, true, false, ◌||◌, not, List, [], ◌∷◌, ◌++◌, append_assoc,
  append-nil, All-append, if◌then◌else◌, arith, All,
}
use distil_proxy.Base.Text.{Text, codes, text_eq, is_empty, split, join, add_to_head}
use distil_proxy.Base.Text.Paths.{step, step_up, steps, print_parts, clean, join_path}

-- No slash is in the text.
abbrev pub NoSlash : Text → Type 0
NoSlash [] = Unit
NoSlash (c ∷ s) = ((c == b'/') ≡ false) × NoSlash s

-- A part that stays a part
pub record IsPart (part : Text) : Type 0 where
  pub no_slash : NoSlash part
  pub named : is_empty part ≡ false
  pub not_dot : text_eq part (codes ".") ≡ false
  pub not_up : text_eq part (codes "..") ≡ false

abbrev has_slash : Text → Bool
has_slash [] = false
has_slash (c ∷ s) = c == b'/' || has_slash s

-- A test for a part
abbrev pub is_part : Text → Bool
is_part s = not (has_slash s || is_empty s || text_eq s (codes ".") || text_eq s (codes ".."))

has_slash_lem : (s : Text) → has_slash s ≡ false → NoSlash s
has_slash_lem [] h = tt
has_slash_lem (c ∷ s) h = (ground arith, has_slash_lem s (ground arith))

pub is_part-IsPart : (s : Text) → is_part s ≡ true → IsPart s
is_part-IsPart s h = record {
  no_slash = has_slash_lem s (ground arith);
  named = ground arith;
  not_dot = ground arith;
  not_up = ground arith;
}

split_plain : (s : Text) → NoSlash s → split s b'/' ≡ s ∷ []
unfolding split
split_plain [] h = refl
split_plain (c ∷ s) (h, k) = rw (h, split) (rw (split_plain s k))

split-append : (s t : Text) → NoSlash s → split (s ++ (b'/' ∷ t)) b'/' ≡ s ∷ split t b'/'
unfolding split
split-append [] t h = refl
split-append (c ∷ s) t (h, k) = rw (h, split) (rw (split-append s t k))

split_some : (s : Text) → (p : Text) × (ps : List Text) × (split s b'/' ≡ p ∷ ps)
unfolding split
split_some [] = ([], [], refl)
split_some (c ∷ s) = let (p, ps, e) = split_some s in head (c == b'/') (split s b'/') e
  where
    head :
        (b : Bool) (l : List Text) {p : Text} {ps : List Text}
        → l ≡ p ∷ ps
        → (q : Text) × (qs : List Text) × ((if b then [] ∷ l else add_to_head c l) ≡ q ∷ qs)
    head true l e = ([], l, refl)
    head false l {p} {ps} e = (c ∷ p, ps, ap (add_to_head c) e)

split_slash : (s t : Text) → split (s ++ (b'/' ∷ t)) b'/' ≡ split s b'/' ++ split t b'/'
unfolding split
split_slash [] t = refl
split_slash (c ∷ s) t =
    let (p, ps, e) = split_some s in rw (split_slash s t) (head (c == b'/') (split s b'/') e)
  where
    head :
        (b : Bool) (l : List Text) {p : Text} {ps : List Text}
        → l ≡ p ∷ ps
        → (if b then [] ∷ (l ++ split t b'/') else add_to_head c (l ++ split t b'/'))
          ≡ (if b then [] ∷ l else add_to_head c l) ++ split t b'/'
    head true l e = refl
    head false l e = rw e refl

split-NoSlash : (s : Text) → All NoSlash (split s b'/')
unfolding split
split-NoSlash [] = (tt, tt)
split-NoSlash (c ∷ s) =
    let (p, ps, e) = split_some s in head (c == b'/') refl (split s b'/') e (split-NoSlash s)
  where
    head :
        (b : Bool)
        → (c == b'/') ≡ b
        → (l : List Text) {p : Text} {ps : List Text} → l ≡ p ∷ ps
        → All NoSlash l
        → All NoSlash (if b then [] ∷ l else add_to_head c l)
    head true eq l e h = (tt, h)
    head false eq (p ∷ ps) e (h, k) = ((eq, h), k)
    head false eq [] e h = ground arith

steps-append :
    (rooted : Bool) (xs ys parts : List Text)
    → steps rooted parts (xs ++ ys) ≡ steps rooted (steps rooted parts xs) ys
unfolding steps
steps-append rooted [] ys parts = refl
steps-append rooted (x ∷ xs) ys parts = steps-append rooted xs ys (step rooted parts x)

step_part :
    (rooted : Bool) (parts : List Text) (part : Text)
    → IsPart part
    → step rooted parts part ≡ part ∷ parts
unfolding step
step_part rooted parts part h = rw (h.named, step) (rw h.not_dot (rw h.not_up))

-- A step from the root leaves only parts.
step-IsPart :
    (parts : List Text) (part : Text)
    → All IsPart parts
    → NoSlash part
    → All IsPart (step true parts part)
unfolding step
step-IsPart parts part h k =
    decide (is_empty part) (text_eq part (codes ".")) (text_eq part (codes "..")) refl refl refl
      parts h
  where
    decide :
        (a b c : Bool)
        → is_empty part ≡ a
        → text_eq part (codes ".") ≡ b
        → text_eq part (codes "..") ≡ c
        → (parts : List Text) → All IsPart parts
        → All IsPart (if a || b then parts else (if c then step_up true parts else part ∷ parts))
    decide true b c e f g parts h = h
    decide false true c e f g parts h = h
    decide false false true e f g [] h = tt
    decide false false true e f g (p ∷ ps) (h, hs) = rw (h.not_up, step_up) hs
    decide false false false e f g parts h =
        (record { no_slash = k; named = e; not_dot = f; not_up = g }, h)

steps-IsPart :
    (xs parts : List Text) → All NoSlash xs → All IsPart parts → All IsPart (steps true parts xs)
unfolding steps
steps-IsPart [] parts h k = k
steps-IsPart (x ∷ xs) parts (hx, h) k =
    steps-IsPart xs (step true parts x) h (step-IsPart parts x k hx)

steps_parts : (xs parts : List Text) → All IsPart xs → steps true parts xs ≡ reverse xs ++ parts
unfolding steps
steps_parts [] parts h = refl
steps_parts (x ∷ xs) parts (hx, h) =
    ap (λ p. steps true p xs) (step_part true parts x hx)
    ∙ steps_parts xs (x ∷ parts) h
    ∙ rw (reverse-cons x xs, append_assoc (reverse xs) (x ∷ []) parts) refl

split_join :
    (p : Text) (ps : List Text)
    → All IsPart (p ∷ ps)
    → split (join (p ∷ ps) (codes "/")) b'/' ≡ p ∷ ps
unfolding join
split_join p [] (h, _) = split_plain p h.no_slash
split_join p (q ∷ ps) (h, k) = split-append p _ h.no_slash ∙ ap (λ l. p ∷ l) (split_join q ps k)

-- The parts of a path that begins with a slash, the last one first
abbrev parts_of : Text → List Text
parts_of s = steps true [] (split (b'/' ∷ s) b'/')

parts_of-IsPart : (s : Text) → All IsPart (parts_of s)
parts_of-IsPart s = steps-IsPart (split (b'/' ∷ s) b'/') [] (split-NoSlash (b'/' ∷ s)) tt

All-reverse : (xs : List Text) → All IsPart xs → All IsPart (reverse xs)
All-reverse [] h = tt
All-reverse (x ∷ xs) (hx, h) =
    subst (All IsPart) (sym (reverse-cons x xs))
      (All-append IsPart (reverse xs) (x ∷ []) (All-reverse xs h) (hx, tt))

-- Printed parts are read again.
parts_of-print : (ps : List Text) → All IsPart ps → parts_of (join (reverse ps) (codes "/")) ≡ ps
unfolding steps split step join
parts_of-print ps h =
    through (reverse ps) (All-reverse ps h) ∙ append-nil (reverse (reverse ps)) ∙ reverse-reverse ps
  where
    through : (qs : List Text) → All IsPart qs → parts_of (join qs (codes "/")) ≡ reverse qs ++ []
    through [] k = refl
    through (q ∷ qs) k =
        ap (steps true []) (split_slash [] (join (q ∷ qs) (codes "/")))
        ∙ ap (λ l. steps true [] ([] ∷ l)) (split_join q qs k)
        ∙ steps_parts (q ∷ qs) [] k

parts_of-under : (s name : Text) → IsPart name → parts_of (s ++ (b'/' ∷ name)) ≡ name ∷ parts_of s
unfolding steps step
parts_of-under s name h =
    ap (steps true []) (split_slash (b'/' ∷ s) name)
    ∙ steps-append true (split (b'/' ∷ s) b'/') (split name b'/') []
    ∙ ap (steps true (parts_of s)) (split_plain name h.no_slash)
    ∙ step_part true (parts_of s) name h

join_last :
    (p : Text) (ps : List Text) (name : Text)
    → join ((p ∷ ps) ++ (name ∷ [])) (codes "/") ≡ join (p ∷ ps) (codes "/") ++ (b'/' ∷ name)
unfolding join
join_last p [] name = refl
join_last p (q ∷ ps) name =
    ap (λ t. p ++ (b'/' ∷ t)) (join_last q ps name)
    ∙ sym (append_assoc p (b'/' ∷ join (q ∷ ps) (codes "/")) (b'/' ∷ name))

join_end :
    (xs : List Text) (p name : Text)
    → join ((xs ++ (p ∷ [])) ++ (name ∷ [])) (codes "/")
      ≡ join (xs ++ (p ∷ [])) (codes "/") ++ (b'/' ∷ name)
join_end [] p name = join_last p [] name
join_end (x ∷ xs) p name = join_last x (xs ++ (p ∷ [])) name

-- A directory that `Clean` gives and that is not the root: its path behind its first slash, from its parts.
abbrev pub dir_of : List Text → Text
dir_of ps = join (reverse ps) (codes "/")

dir_of-under :
    (p : Text) (ps : List Text) (name : Text)
    → dir_of (name ∷ p ∷ ps) ≡ dir_of (p ∷ ps) ++ (b'/' ∷ name)
dir_of-under p ps name =
    rw (reverse-cons name (p ∷ ps), reverse-cons p ps) (join_end (reverse ps) p name)

-- `Join` of a directory that begins with a slash and a name, or two
pub join_path_name :
    (s name : Text)
    → IsPart name
    → join_path ((b'/' ∷ s) ∷ name ∷ []) ≡ b'/' ∷ dir_of (name ∷ parts_of s)
unfolding join_path clean print_parts join
join_path_name s name h = ap (λ ps. b'/' ∷ dir_of ps) (parts_of-under s name h)

pub join_path_names :
    (s dir name : Text)
    → IsPart dir
    → IsPart name
    → join_path ((b'/' ∷ s) ∷ dir ∷ name ∷ []) ≡ b'/' ∷ dir_of (name ∷ dir ∷ parts_of s)
unfolding join_path clean print_parts join
join_path_names s dir name h k =
    ap (λ ps. b'/' ∷ dir_of ps)
      (ap parts_of (sym (append_assoc s (b'/' ∷ dir) (b'/' ∷ name)))
        ∙ parts_of-under (s ++ (b'/' ∷ dir)) name k
        ∙ ap (λ ps. name ∷ ps) (parts_of-under s dir h))

-- A name in a directory that is such a path itself
module _ (s dir : Text) (h : IsPart dir) where
  abbrev pub root : Text
  root = dir_of (dir ∷ parts_of s)

  root_parts : parts_of root ≡ dir ∷ parts_of s
  root_parts = parts_of-print (dir ∷ parts_of s) (h, parts_of-IsPart s)

  pub under_root :
      (name : Text)
      → IsPart name
      → join_path ((b'/' ∷ root) ∷ name ∷ []) ≡ b'/' ∷ (root ++ (b'/' ∷ name))
  under_root name k =
      join_path_name root name k
      ∙ ap (λ ps. b'/' ∷ dir_of (name ∷ ps)) root_parts
      ∙ ap (λ t. b'/' ∷ t) (dir_of-under dir (parts_of s) name)

  pub under_root_dir :
      (sub name : Text)
      → IsPart sub
      → IsPart name
      → join_path ((b'/' ∷ root) ∷ sub ∷ name ∷ [])
        ≡ b'/' ∷ (root ++ (b'/' ∷ (sub ++ (b'/' ∷ name))))
  under_root_dir sub name j k =
      join_path_names root sub name j k
      ∙ ap (λ ps. b'/' ∷ dir_of (name ∷ sub ∷ ps)) root_parts
      ∙ ap (λ t. b'/' ∷ t)
          (dir_of-under sub (dir ∷ parts_of s) name
            ∙ ap (λ t. t ++ (b'/' ∷ name)) (dir_of-under dir (parts_of s) sub)
            ∙ append_assoc root (b'/' ∷ sub) (b'/' ∷ name))
