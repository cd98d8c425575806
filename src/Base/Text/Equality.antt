-- ===== src/Base/Text/Equality.antt =====
-- Equality of texts, as a decision.
use pbs.Base.{refl, ◌≡◌, ◌↔◌, true, [], ◌∷◌, arith}
use pbs.Base.Text.{Text, ◌==◌}

pub text_eq_iff : (a b : Text) → ((a == b) ≡ true) ↔ (a ≡ b)
unfolding ◌==◌
text_eq_iff [] [] = ground arith
text_eq_iff [] (y ∷ b) = ground arith
text_eq_iff (x ∷ a) [] = ground arith
text_eq_iff (x ∷ a) (y ∷ b) = ground (arith, text_eq_iff a b)

pub text_eq_refl : (a : Text) → (a == a) ≡ true
text_eq_refl a = (text_eq_iff a a).1 refl
