-- ===== src/Base/Text/Paths.antt =====
-- path/filepath on Unix: `Clean` and `Join`.
pub mod Under
use mathlib.Core.List.{reverse}
use distil_proxy.Base.{◌==◌, Bool, true, false, ◌||◌, List, [], ◌∷◌, ◌++◌, ◌≡◌, refl, if◌then◌else◌}
use distil_proxy.Base.Text.{Text, codes, text_eq, is_empty, split, join}

-- `..` behind the parts so far, the last one first
unfoldable pub step_up : Bool → List Text → List Text
unfolding text_eq
step_up rooted [] = if rooted then [] else codes ".." ∷ []
step_up rooted (part ∷ parts) =
    if text_eq part (codes "..") then codes ".." ∷ part ∷ parts else parts

-- One part of a path
unfoldable pub step : Bool → List Text → Text → List Text
unfolding text_eq step_up
step rooted parts part =
    if is_empty part || text_eq part (codes ".")
    then parts
    else if text_eq part (codes "..")
    then step_up rooted parts
    else part ∷ parts

unfoldable pub steps : Bool → List Text → List Text → List Text
unfolding step
steps rooted parts [] = parts
steps rooted parts (part ∷ rest) = steps rooted (step rooted parts part) rest

abbrev pub is_rooted : Text → Bool
is_rooted [] = false
is_rooted (c ∷ s) = c == b'/'

unfoldable pub print_parts : Bool → List Text → Text
unfolding join
print_parts true parts = b'/' ∷ join (reverse parts) (codes "/")
print_parts false [] = codes "."
print_parts false (part ∷ parts) = join (reverse (part ∷ parts)) (codes "/")

-- `filepath.Clean`
unfoldable pub clean : Text → Text
unfolding steps print_parts split
clean path = print_parts (is_rooted path) (steps (is_rooted path) [] (split path b'/'))

-- `filepath.Join`: the empty elements in front are skipped.
unfoldable pub join_path : List Text → Text
unfolding clean join
join_path [] = []
join_path (e ∷ es) = if is_empty e then join_path es else clean (join (e ∷ es) (codes "/"))

dots : clean (codes "/a/../../b/./c//") ≡ codes "/b/c"
unfolding clean
dots = refl

relative : clean (codes "../a/../..") ≡ codes "../.."
unfolding clean
relative = refl

nothing : clean [] ≡ codes "."
unfolding clean
nothing = refl
