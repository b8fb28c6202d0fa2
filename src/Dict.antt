-- ===== src/Dict.antt =====
-- Go maps with string keys, as association lists. A key is looked up at its first entry, and a
-- write replaces that entry, so a map has one entry for each key.
use lxd_csi_driver.Base.{List, [], ◌∷◌, Option, none, some, ◌≡◌, refl, arith, if◌then◌else◌}
use lxd_csi_driver.Strings.{Text, text_eq}
use lxd_csi_driver.Strings.Equality.{text_eq_iff}

abbrev pub Dict {ℓ} : Type ℓ → Type ℓ
Dict V = List (Text × V)

module _ {ℓ} {V : Type ℓ} where
  -- `v, ok := m[k]`
  unfoldable pub lookup : Text → Dict V → Option V
  lookup k [] = none
  lookup k ((j, v) ∷ m) = if text_eq j k then some v else lookup k m

  -- `m[k] = v`
  unfoldable pub insert : Text → V → Dict V → Dict V
  insert k v [] = (k, v) ∷ []
  insert k v ((j, w) ∷ m) = if text_eq j k then (j, v) ∷ m else (j, w) ∷ insert k v m

  -- A write is read back at its key, and leaves every other key alone.
  pub lookup-insert :
      (k j : Text) (v : V) (m : Dict V)
      → lookup j (insert k v m) ≡ (if text_eq k j then some v else lookup j m)
  unfolding lookup insert
  lookup-insert k j v [] = refl
  lookup-insert k j v ((i, w) ∷ m) =
      ground (arith, text_eq_iff k j, text_eq_iff i k, text_eq_iff i j, lookup-insert k j v m)

abbrev pub or_empty : Option Text → Text
or_empty none = []
or_empty (some v) = v

-- `m[k]` in a map of strings: the empty string where the key is missing.
abbrev pub get : Text → Dict Text → Text
get k m = or_empty (lookup k m)
