-- ===== src/Text/Equality.antt =====
-- `===` on strings decides equality.
use zkstellar.Prelude.{◌≡◌, refl, ◌↔◌, true, [], ◌∷◌, arith}
use zkstellar.Text.{Text, text_eq}

pub text_eq_iff : (s t : Text) → (text_eq s t ≡ true) ↔ (s ≡ t)
text_eq_iff [] [] = (λ h. refl, λ h. refl)
text_eq_iff [] (d ∷ t) = (λ h. cc, λ h. cc)
text_eq_iff (c ∷ s) [] = (λ h. cc, λ h. cc)
text_eq_iff (c ∷ s) (d ∷ t) = grind (arith, text_eq_iff s t)
