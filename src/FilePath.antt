-- ===== src/FilePath.antt =====
-- Go's `filepath.Clean` and `filepath.Join` on slash-separated paths, which the mount paths and the
-- socket paths of the driver go through.
mod Tests
use mathlib.Core.List.{reverse}
use lxd_csi_driver.Base.{
  Bool, true, false, ◌||◌, List, [], ◌∷◌, ◌++◌, ◌==◌, if◌then◌else◌, ◌≡◌, refl,
}
use lxd_csi_driver.Strings.{Text, codes, is_empty, text_eq, split, join}

abbrev dot : Text
dot = b'.' ∷ []

abbrev dot_dot : Text
dot_dot = b'.' ∷ b'.' ∷ []

-- A `..` takes the last component back, unless there is none or it is a `..` itself.
abbrev pop : Bool → List Text → List Text
pop rooted [] = if rooted then [] else dot_dot ∷ []
pop rooted (top ∷ stack) = if text_eq top dot_dot then dot_dot ∷ top ∷ stack else stack

-- One component of the path; the stack holds the components so far, the last one first.
unfoldable pub clean_step : Bool → List Text → Text → List Text
unfolding text_eq
clean_step rooted stack part =
    if is_empty part || text_eq part dot
    then stack
    else if text_eq part dot_dot
    then pop rooted stack
    else part ∷ stack

unfoldable pub clean_loop : Bool → List Text → List Text → List Text
clean_loop rooted stack [] = stack
clean_loop rooted stack (part ∷ parts) = clean_loop rooted (clean_step rooted stack part) parts

abbrev is_rooted : Text → Bool
is_rooted [] = false
is_rooted (c ∷ s) = c == b'/'

abbrev or_dot : Text → Text
or_dot [] = dot
or_dot (c ∷ s) = c ∷ s

-- `filepath.Clean(path)`
unfoldable pub clean : Text → Text
unfolding clean_loop clean_step split join
clean path =
    let body = join (reverse (clean_loop (is_rooted path) [] (split path b'/'))) b'/' in
    or_dot (if is_rooted path then b'/' ∷ body else body)

-- `filepath.Join(a, b)`
unfoldable pub join_path : Text → Text → Text
unfolding clean
join_path a b = if is_empty a then if is_empty b then [] else clean b else clean (a ++ b'/' ∷ b)
