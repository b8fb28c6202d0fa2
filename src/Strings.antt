-- ===== src/Strings.antt =====
-- The functions of Go's package `strings` that the driver calls, on byte strings.
pub mod Equality
pub mod Laws
pub mod Prefixes
use Prim.Native.Char.{code}
use Prim.Native.String.{String}
use lxd_csi_driver.Base.{
  ℕ, Bool, true, false, List, [], ◌∷◌, ◌++◌, Option, none, some, ◌&&◌, ◌||◌, ◌==◌, if◌then◌else◌,
}

-- A Go string is a sequence of bytes.
abbrev pub Text : Type 0
Text = List ℕ

-- The bytes of a literal, which is ASCII wherever the source has one.
abbrev pub codes : String → Text
codes String.[] = []
codes (String.◌∷◌ c s) = code c ∷ codes s

-- `s == t`
unfoldable pub text_eq : Text → Text → Bool
text_eq [] [] = true
text_eq [] (d ∷ t) = false
text_eq (c ∷ s) [] = false
text_eq (c ∷ s) (d ∷ t) = c == d && text_eq s t

-- `s == ""`
abbrev pub is_empty : Text → Bool
is_empty [] = true
is_empty (c ∷ s) = false

-- `strings.Contains(s, sep)` for a separator of one byte.
unfoldable pub contains : Text → ℕ → Bool
contains [] sep = false
contains (c ∷ s) sep = c == sep || contains s sep

abbrev pub on_before : (Text → Text) → Option (Text × Text) → Option (Text × Text)
on_before f none = none
on_before f (some (before, after)) = some (f before, after)

-- `strings.Cut(s, sep)` for a separator of one byte; `none` where `found` is false.
unfoldable pub cut : Text → ℕ → Option (Text × Text)
cut [] sep = none
cut (c ∷ s) sep =
    let rest = on_before (λ before. c ∷ before) (cut s sep) in
    if c == sep then some ([], s) else rest

abbrev pub on_head : ℕ → List Text → List Text
on_head c [] = (c ∷ []) ∷ []
on_head c (p ∷ ps) = (c ∷ p) ∷ ps

-- `strings.Split(s, sep)` for a separator of one byte: always one part at least.
unfoldable pub split : Text → ℕ → List Text
split [] sep = [] ∷ []
split (c ∷ s) sep = let rest = split s sep in if c == sep then [] ∷ rest else on_head c rest

-- `strings.ReplaceAll(s, old, new)` for an `old` of one byte.
unfoldable pub replace_all : Text → ℕ → Text → Text
replace_all [] old new = []
replace_all (c ∷ s) old new =
    let rest = replace_all s old new in if c == old then new ++ rest else c ∷ rest

-- `strings.HasPrefix(s, prefix)`
unfoldable pub has_prefix : Text → Text → Bool
has_prefix s [] = true
has_prefix [] (d ∷ prefix) = false
has_prefix (c ∷ s) (d ∷ prefix) = c == d && has_prefix s prefix

-- What follows a prefix.
unfoldable pub after_prefix : Text → Text → Option Text
after_prefix s [] = some s
after_prefix [] (d ∷ prefix) = none
after_prefix (c ∷ s) (d ∷ prefix) =
    let rest = after_prefix s prefix in if c == d then rest else none

-- The part after the first `sep`, as `_, after, found := strings.Cut(s, sep)` gives it.
unfoldable pub cut_after : Text → Text → Option Text
unfolding after_prefix
cut_after [] sep = after_prefix [] sep
cut_after (c ∷ s) sep =
    let rest = cut_after s sep in
    elim (after_prefix (c ∷ s) sep) [ some after ↦ some after | none ↦ rest ]

-- `strings.Join(parts, sep)` for a separator of one byte.
unfoldable pub join : List Text → ℕ → Text
join [] sep = []
join (p ∷ []) sep = p
join (p ∷ q ∷ ps) sep = p ++ sep ∷ join (q ∷ ps) sep
