-- ===== src/Text/Same.antt =====
-- Texts that compare equal are equal.
use lanrouge_nails_bot.Base.{◌≡◌, refl, true, [], ◌∷◌, arith}
use lanrouge_nails_bot.Text.{Text, same_text}

pub same_text_refl : (s : Text) → same_text s s ≡ true
unfolding same_text
same_text_refl [] = refl
same_text_refl (c ∷ s) = ground (arith, same_text_refl s)

pub same→eq : (s t : Text) → same_text s t ≡ true → s ≡ t
unfolding same_text
same→eq [] [] h = refl
same→eq [] (d ∷ t) h = ground arith
same→eq (c ∷ s) [] h = ground arith
same→eq (c ∷ s) (d ∷ t) h = ground (arith, same→eq s t)
