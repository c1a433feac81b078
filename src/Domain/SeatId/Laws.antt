-- ===== src/Domain/SeatId/Laws.antt =====
-- `from_string` and `__str__` undo one another.
use ticket_genius.Prelude.{
  ℕ, ◌≡◌, refl, ap, ◌∙◌, true, false, List, [], ◌∷◌, ◌++◌, ◌==◌, arith, is_empty, Bool-cases, inl,
  inr,
}
use ticket_genius.Prelude.Text.{Text, split, extend_first, contains_char}
use ticket_genius.Python.{ok}
use ticket_genius.Domain.SeatId.{SeatId, str, of_parts, from_string}

-- The fields with the separator between them.
join : ℕ → List Text → Text
join c [] = []
join c (p ∷ []) = p
join c (p ∷ q ∷ ps) = p ++ c ∷ join c (q ∷ ps)

join-extend_first : (c x : ℕ) (ps : List Text) → join c (extend_first x ps) ≡ x ∷ join c ps
unfolding join
join-extend_first c x [] = refl
join-extend_first c x (p ∷ []) = refl
join-extend_first c x (p ∷ q ∷ ps) = refl

abbrev IsCons : List Text → Type 0
IsCons [] = ⊥
IsCons (p ∷ ps) = Unit

extend_first-IsCons : (x : ℕ) (ps : List Text) → IsCons (extend_first x ps)
extend_first-IsCons x [] = tt
extend_first-IsCons x (p ∷ ps) = tt

split-IsCons : (c : ℕ) (s : Text) → IsCons (split c s)
unfolding split
split-IsCons c [] = tt
split-IsCons c (x ∷ s) = elim (Bool-cases (x == c)) [
  | inl e ↦ rw e tt
  | inr e ↦ rw e (extend_first-IsCons x (split c s))
]

join-cons : (c : ℕ) (ps : List Text) → IsCons ps → join c ([] ∷ ps) ≡ c ∷ join c ps
unfolding join
join-cons c [] h = absurd h
join-cons c (p ∷ ps) h = refl

cons_path : (c x : ℕ) (t s : Text) → (x == c) ≡ true → t ≡ s → c ∷ t ≡ x ∷ s
cons_path c x t s e p = ground arith

-- Splitting and joining gives the text back.
join-split : (c : ℕ) (s : Text) → join c (split c s) ≡ s
unfolding split join
join-split c [] = refl
join-split c (x ∷ s) = elim (Bool-cases (x == c)) [
  | inl e ↦ rw e (
      join-cons c (split c s) (split-IsCons c s)
      ∙ cons_path c x (join c (split c s)) s e (join-split c s))
  | inr e ↦ rw e (join-extend_first c x (split c s) ∙ ap (λ t. x ∷ t) (join-split c s))
]

-- A text without the separator is one field.
split-append :
    (c : ℕ) (a s : Text) → contains_char c a ≡ false → split c (a ++ c ∷ s) ≡ a ∷ split c s
unfolding split contains_char
split-append c [] s h = ground arith
split-append c (x ∷ a) s h = ground (arith, split-append c a s)

split_none : (c : ℕ) (a : Text) → contains_char c a ≡ false → split c a ≡ a ∷ []
unfolding split contains_char
split_none c [] h = refl
split_none c (x ∷ a) h = ground (arith, split_none c a)

of_parts-join :
    (s : Text) (ps : List Text) (i : SeatId) → of_parts s ps ≡ ok i → str i ≡ join b'-' ps
unfolding of_parts str join
of_parts-join s (section ∷ row ∷ number ∷ []) i h = ground arith
of_parts-join s ps i h = cc

-- What parses prints as it was read.
pub str-from_string : (s : Text) (i : SeatId) → from_string s ≡ ok i → str i ≡ s
unfolding from_string
str-from_string s i h = of_parts-join s (split b'-' s) i h ∙ join-split b'-' s

-- No field is empty or holds the separator.
pub record IsPlain (i : SeatId) : Type 0 where
  pub section_given : is_empty i.section ≡ false
  pub row_given : is_empty i.row ≡ false
  pub number_given : is_empty i.number ≡ false
  pub section_plain : contains_char b'-' i.section ≡ false
  pub row_plain : contains_char b'-' i.row ≡ false
  pub number_plain : contains_char b'-' i.number ≡ false

-- What prints from plain fields parses back.
pub from_string-str : (i : SeatId) → IsPlain i → from_string (str i) ≡ ok i
unfolding from_string str
from_string-str i h =
    rw
      (
        split-append b'-' i.section (i.row ++ b'-' ∷ i.number) h.section_plain,
        split-append b'-' i.row i.number h.row_plain,
        split_none b'-' i.number h.number_plain,
      )
      (ground arith)
