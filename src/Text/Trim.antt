-- ===== src/Text/Trim.antt =====
-- A string that is not blank is not blank when it is trimmed.
use zkstellar.Prelude.{
  ℕ, ◌≡◌, refl, ◌∙◌, sym, Bool, true, false, ◌⊎◌, ◌&&◌, [], ◌∷◌, arith, Bool-cases, inl, inr,
}
use zkstellar.Text.{Text, is_white, trim, trim_start, trim_end, end_with, is_empty}

all_white : Text → Bool
all_white [] = true
all_white (c ∷ s) = is_white c && all_white s

all_white-trim_start : (s : Text) → all_white (trim_start s) ≡ all_white s
unfolding all_white trim_start
all_white-trim_start [] = refl
all_white-trim_start (c ∷ s) = elim (Bool-cases (is_white c)) [
  | inl w ↦ ground (arith, all_white-trim_start s)
  | inr w ↦ ground arith
]

-- What stands at the end of a trimmed rest.
end_with_lem :
    (c : ℕ) (s : Text)
    → (is_empty (end_with c s) ≡ (is_white c && is_empty s))
      × (all_white (end_with c s) ≡ (is_white c && all_white s))
unfolding all_white
end_with_lem c [] = (ground arith, ground arith)
end_with_lem c (d ∷ s) = (ground arith, refl)

trim_end_lem :
    (s : Text) → (is_empty (trim_end s) ≡ all_white s) × (all_white (trim_end s) ≡ all_white s)
unfolding all_white trim_end
trim_end_lem [] = (refl, refl)
trim_end_lem (c ∷ s) =
    let (empty, white) = trim_end_lem s in
    let (empty_end, white_end) = end_with_lem c (trim_end s) in
    (empty_end ∙ rw empty, white_end ∙ rw white)

is_empty-trim : (s : Text) → is_empty (trim s) ≡ all_white s
unfolding trim
is_empty-trim s = (trim_end_lem (trim_start s)).0 ∙ all_white-trim_start s

all_white-trim : (s : Text) → all_white (trim s) ≡ all_white s
unfolding trim
all_white-trim s = (trim_end_lem (trim_start s)).1 ∙ all_white-trim_start s

-- Trimming twice leaves nothing exactly where trimming once does.
pub is_empty-trim-trim : (s : Text) → is_empty (trim (trim s)) ≡ is_empty (trim s)
is_empty-trim-trim s = is_empty-trim (trim s) ∙ all_white-trim s ∙ sym (is_empty-trim s)

-- A character of the string is no white space.
abbrev pub NotBlank : Text → Type 0
NotBlank [] = ⊥
NotBlank (c ∷ s) = (is_white c ≡ false) ⊎ NotBlank s

all_white-NotBlank : (s : Text) → all_white s ≡ false → NotBlank s
unfolding all_white
all_white-NotBlank [] h = cc
all_white-NotBlank (c ∷ s) h = elim (Bool-cases (is_white c)) [
  | inl w ↦ inr (all_white-NotBlank s (rw w at h))
  | inr w ↦ inl w
]

pub is_empty-trim-NotBlank : (s : Text) → is_empty (trim s) ≡ false → NotBlank s
is_empty-trim-NotBlank s h = all_white-NotBlank s (sym (is_empty-trim s) ∙ h)
