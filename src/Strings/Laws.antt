-- ===== src/Strings/Laws.antt =====
-- Laws of the string functions: cutting, splitting and replacing at one byte.
use lxd_csi_driver.Base.{
  ℕ, ◌≤◌, sym, ◌∙◌, true, false, List, [], ◌∷◌, ◌++◌, Option, none, some, ◌≡◌, ◌≢◌, refl, arith,
  length, All, All-append, inl, inr, ◌==◌, ==_iff, Bool-cases, ap,
}
use mathlib.Core.Path.{ap₂, subst}
use lxd_csi_driver.Strings.{Text, contains, cut, split, replace_all, on_before, on_head, join}

-- A byte does not stand in a text.
abbrev pub Lacks : ℕ → Text → Type 0
Lacks b = All (λ c. c ≢ b)

pub contains-append_sep : (s t : Text) (sep : ℕ) → contains (s ++ sep ∷ t) sep ≡ true
unfolding contains
contains-append_sep [] t sep = ground arith
contains-append_sep (c ∷ s) t sep = ground (arith, contains-append_sep s t sep)

pub contains_of_Lacks : (s : Text) (sep : ℕ) → Lacks sep s → contains s sep ≡ false
unfolding contains
contains_of_Lacks [] sep h = refl
contains_of_Lacks (c ∷ s) sep h = ground (arith, contains_of_Lacks s sep)

pub Lacks-of_contains : (s : Text) (sep : ℕ) → contains s sep ≡ false → Lacks sep s
unfolding contains
Lacks-of_contains [] sep h = tt
Lacks-of_contains (c ∷ s) sep h = ground (arith, Lacks-of_contains s sep)

pub cut-append_sep : (s t : Text) (sep : ℕ) → Lacks sep s → cut (s ++ sep ∷ t) sep ≡ some (s, t)
unfolding cut
cut-append_sep [] t sep h = ground arith
cut-append_sep (c ∷ s) t sep h = ground (arith, cut-append_sep s t sep)

-- What a result of `cut` says: the text with no separator, or its parts around the first one.
abbrev pub IsCut : Text → ℕ → Option (Text × Text) → Type 0
IsCut s sep none = Lacks sep s
IsCut s sep (some (before, after)) = (s ≡ before ++ sep ∷ after) × Lacks sep before

IsCut-cons :
    (c : ℕ) (s : Text) (sep : ℕ) (o : Option (Text × Text))
    → c ≢ sep
    → IsCut s sep o
    → IsCut (c ∷ s) sep (on_before (λ before. c ∷ before) o)
IsCut-cons c s sep none ne h = (ne, h)
IsCut-cons c s sep (some (before, after)) ne h = (ap (λ t. c ∷ t) h.0, (ne, h.1))

pub cut-IsCut : (s : Text) (sep : ℕ) → IsCut s sep (cut s sep)
unfolding cut
cut-IsCut [] sep = tt
cut-IsCut (c ∷ s) sep = elim (Bool-cases (c == sep)) [
  | inl here ↦ rw here (ap (λ b. b ∷ s) ((==_iff c sep).0 here), tt)
  | inr other ↦ rw other (IsCut-cons c s sep (cut s sep) (ground arith) (cut-IsCut s sep))
]

-- What `cut` finds is a decomposition of the text at its first separator.
pub cut_sound :
    (s : Text) (sep : ℕ) {before after : Text}
    → cut s sep ≡ some (before, after)
    → (s ≡ before ++ sep ∷ after) × Lacks sep before
cut_sound s sep e = rw e at (cut-IsCut s sep)

pub split_of_Lacks : (s : Text) (sep : ℕ) → Lacks sep s → split s sep ≡ s ∷ []
unfolding split
split_of_Lacks [] sep h = refl
split_of_Lacks (c ∷ s) sep h = ground (arith, split_of_Lacks s sep)

pub split-append_sep :
    (s t : Text) (sep : ℕ) → Lacks sep s → split (s ++ sep ∷ t) sep ≡ s ∷ split t sep
unfolding split
split-append_sep [] t sep h = ground arith
split-append_sep (c ∷ s) t sep h = ground (arith, split-append_sep s t sep)

pub replace_all-Lacks :
    (s : Text) (b : ℕ) (new : Text) → Lacks b new → Lacks b (replace_all s b new)
unfolding replace_all
replace_all-Lacks [] b new h = tt
replace_all-Lacks (c ∷ s) b new h = elim (Bool-cases (c == b)) [
  | inl here ↦ rw here (All-append _ new (replace_all s b new) h (replace_all-Lacks s b new h))
  | inr other ↦ rw other (ground arith, replace_all-Lacks s b new h)
]

-- Replacing one byte brings in no other byte than those of the replacement.
pub replace_all-Lacks_other :
    (s : Text) (old b : ℕ) (new : Text) → Lacks b s → Lacks b new → Lacks b (replace_all s old new)
unfolding replace_all
replace_all-Lacks_other [] old b new h k = tt
replace_all-Lacks_other (c ∷ s) old b new (hc, hs) k = elim (Bool-cases (c == old)) [
  | inl here ↦
      rw here
        (All-append _ new (replace_all s old new) k (replace_all-Lacks_other s old b new hs k))
  | inr other ↦ rw other (hc, replace_all-Lacks_other s old b new hs k)
]

pub length-remove-le : (s : Text) (b : ℕ) → length (replace_all s b []) ≤ length s
unfolding replace_all
length-remove-le [] b = omega arith
length-remove-le (c ∷ s) b = ground (arith, length-remove-le s b)

on_head-ne-nil : (c : ℕ) (ps : List Text) → on_head c ps ≢ []
on_head-ne-nil c [] = λ e. cc
on_head-ne-nil c (p ∷ ps) = λ e. cc

split-ne-nil : (s : Text) (sep : ℕ) → split s sep ≢ []
unfolding split
split-ne-nil [] sep = λ e. cc
split-ne-nil (c ∷ s) sep = elim (Bool-cases (c == sep)) [
  | inl here ↦ rw here (λ e. cc)
  | inr other ↦ rw other (on_head-ne-nil c (split s sep))
]

join-nil_cons : (ps : List Text) (sep : ℕ) → ps ≢ [] → join ([] ∷ ps) sep ≡ sep ∷ join ps sep
unfolding join
join-nil_cons [] sep h = absurd (h refl)
join-nil_cons (p ∷ ps) sep h = refl

join-on_head : (c : ℕ) (ps : List Text) (sep : ℕ) → join (on_head c ps) sep ≡ c ∷ join ps sep
unfolding join
join-on_head c [] sep = refl
join-on_head c (p ∷ []) sep = refl
join-on_head c (p ∷ q ∷ ps) sep = refl

-- Joining the parts of a split gives the text back.
pub join-split : (s : Text) (sep : ℕ) → join (split s sep) sep ≡ s
unfolding split
join-split [] sep = unfold join in refl
join-split (c ∷ s) sep = elim (Bool-cases (c == sep)) [
  | inl here ↦ rw here (
      join-nil_cons (split s sep) sep (split-ne-nil s sep)
      ∙ ap₂ (λ b t. b ∷ t) (sym ((==_iff c sep).0 here)) (join-split s sep))
  | inr other ↦ rw other (join-on_head c (split s sep) sep ∙ ap (λ t. c ∷ t) (join-split s sep))
]

on_head-Lacks :
    (c : ℕ) (ps : List Text) (sep : ℕ)
    → c ≢ sep
    → All (Lacks sep) ps
    → All (Lacks sep) (on_head c ps)
on_head-Lacks c [] sep ne h = ((ne, tt), tt)
on_head-Lacks c (p ∷ ps) sep ne (hp, hps) = ((ne, hp), hps)

-- No part of a split holds the separator.
pub split-Lacks : (s : Text) (sep : ℕ) → All (Lacks sep) (split s sep)
unfolding split
split-Lacks [] sep = (tt, tt)
split-Lacks (c ∷ s) sep = elim (Bool-cases (c == sep)) [
  | inl here ↦ rw here (tt, split-Lacks s sep)
  | inr other ↦ rw other (on_head-Lacks c (split s sep) sep (ground arith) (split-Lacks s sep))
]

on_head-append : (c : ℕ) (ps qs : List Text) → ps ≢ [] → on_head c (ps ++ qs) ≡ on_head c ps ++ qs
on_head-append c [] qs h = absurd (h refl)
on_head-append c (p ∷ ps) qs h = refl

-- A last part behind one more separator.
pub split-append_part :
    (s t : Text) (sep : ℕ) → Lacks sep t → split (s ++ sep ∷ t) sep ≡ split s sep ++ t ∷ []
unfolding split
split-append_part [] t sep h = rw (split_of_Lacks t sep h) (ground arith)
split-append_part (c ∷ s) t sep h = elim (Bool-cases (c == sep)) [
  | inl here ↦ rw here (ap (λ ps. [] ∷ ps) (split-append_part s t sep h))
  | inr other ↦ rw other (
      ap (on_head c) (split-append_part s t sep h)
      ∙ on_head-append c (split s sep) (t ∷ []) (split-ne-nil s sep))
]

abbrev pub on_after : (Text → Text) → Option (Text × Text) → Option (Text × Text)
on_after f none = none
on_after f (some (before, after)) = some (before, f after)

on_before-on_after :
    (f g : Text → Text) (o : Option (Text × Text))
    → on_before f (on_after g o) ≡ on_after g (on_before f o)
on_before-on_after f g none = refl
on_before-on_after f g (some (before, after)) = refl

-- A tail with no separator is a tail of what follows the first one.
pub cut-append :
    (s t : Text) (sep : ℕ)
    → Lacks sep t
    → cut (s ++ t) sep ≡ on_after (λ after. after ++ t) (cut s sep)
unfolding cut
cut-append [] [] sep h = refl
cut-append [] (d ∷ t) sep (hd, ht) = ground (arith, cut-append [] t sep ht)
cut-append (c ∷ s) t sep h = elim (Bool-cases (c == sep)) [
  | inl here ↦ rw here
  | inr other ↦ rw other (
      ap (on_before (λ before. c ∷ before)) (cut-append s t sep h)
      ∙ on_before-on_after (λ before. c ∷ before) (λ after. after ++ t) (cut s sep))
]

-- `Contains` and `Cut` agree.
pub cut-contains : (s : Text) (sep : ℕ) → contains s sep ≡ false → cut s sep ≡ none
unfolding cut contains
cut-contains [] sep h = refl
cut-contains (c ∷ s) sep h = ground (arith, cut-contains s sep)

pub contains_of_cut : (s : Text) (sep : ℕ) → cut s sep ≡ none → contains s sep ≡ false
contains_of_cut s sep e = contains_of_Lacks s sep (rw e at (cut-IsCut s sep))

Lacks-append_left : (b : ℕ) (s t : Text) → Lacks b (s ++ t) → Lacks b s
Lacks-append_left b [] t h = tt
Lacks-append_left b (c ∷ s) t h = (h.0, Lacks-append_left b s t h.1)

Lacks-append_right : (b : ℕ) (s t : Text) → Lacks b (s ++ t) → Lacks b t
Lacks-append_right b [] t h = h
Lacks-append_right b (c ∷ s) t h = Lacks-append_right b s t h.1

-- The parts of a cut hold no byte that the text does not hold.
pub cut-Lacks :
    (s : Text) (sep b : ℕ) {before after : Text}
    → cut s sep ≡ some (before, after)
    → Lacks b s
    → Lacks b before × Lacks b after
cut-Lacks s sep b {before} {after} found h =
    let h' : Lacks b (before ++ sep ∷ after) = subst (Lacks b) (cut_sound s sep found).0 h in
    (Lacks-append_left b before (sep ∷ after) h', (Lacks-append_right b before (sep ∷ after) h').1)
