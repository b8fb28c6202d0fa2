-- ===== src/Strings/Prefixes.antt =====
-- What the tests for a prefix and the cut behind a separator say.
use lxd_csi_driver.Base.{
  true, [], ◌∷◌, ◌++◌, some, ◌≡◌, refl, ap, ◌∙◌, ◌==◌, ==_iff, Bool-cases, Option-cases, inl, inr,
}
use mathlib.Core.Path.{ap₂}
use mathlib.Core.Option.{some-injective}
use lxd_csi_driver.Strings.{Text, has_prefix, after_prefix, cut_after}

-- A prefix stands at the head of a text.
pub has_prefix_lem :
    (s prefix : Text) → has_prefix s prefix ≡ true → (rest : Text) × (s ≡ prefix ++ rest)
unfolding has_prefix
has_prefix_lem s [] h = (s, refl)
has_prefix_lem [] (d ∷ prefix) h = cc
has_prefix_lem (c ∷ s) (d ∷ prefix) h = elim (Bool-cases (c == d)) [
  | inl same ↦
      let (rest, e) = has_prefix_lem s prefix (rw same at h) in
      (rest, ap₂ (λ x xs. x ∷ xs) ((==_iff c d).0 same) e)
  | inr other ↦ let f : ⊥ = cc (rw other at h) in absurd f
]

after_prefix_lem :
    (s prefix : Text) {after : Text} → after_prefix s prefix ≡ some after → s ≡ prefix ++ after
unfolding after_prefix
after_prefix_lem s [] h = some-injective _ _ h
after_prefix_lem [] (d ∷ prefix) h = cc
after_prefix_lem (c ∷ s) (d ∷ prefix) h = elim (Bool-cases (c == d)) [
  | inl same ↦ ap₂ (λ x xs. x ∷ xs) ((==_iff c d).0 same) (after_prefix_lem s prefix (rw same at h))
  | inr other ↦ let f : ⊥ = cc (rw other at h) in absurd f
]

-- The separator stands in a text before what is cut off.
pub cut_after_lem :
    (s sep : Text) {after : Text}
    → cut_after s sep ≡ some after
    → (before : Text) × (s ≡ before ++ sep ++ after)
unfolding cut_after
cut_after_lem [] sep h = ([], after_prefix_lem [] sep h)
cut_after_lem (c ∷ s) sep h = elim (Option-cases (after_prefix (c ∷ s) sep)) [
  | inl later ↦
      let (before, e) = cut_after_lem s sep (rw (later, cut_after) at h) in
      (c ∷ before, ap (λ xs. c ∷ xs) e)
  | inr (x, here) ↦ ([], after_prefix_lem (c ∷ s) sep (here ∙ rw (here, cut_after) at h))
]
