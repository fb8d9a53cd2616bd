-- ===== src/Text/Stripping.antt =====
-- Texts that `strip` leaves alone.
use mathlib.Core.List.{reverse, reverse-append, reverse-reverse}
use lanrouge_nails_bot.Base.{ℕ, ◌≡◌, refl, ◌∙◌, Bool, false, [], ◌∷◌, any, any-append, arith}
use lanrouge_nails_bot.Text.{Text, is_space, lstrip, strip}

any-reverse : (p : ℕ → Bool) (s : Text) → any p (reverse s) ≡ any p s
any-reverse p [] = refl
any-reverse p (c ∷ s) =
    rw (reverse-append (c ∷ []) s) (rw any-append (ground (arith, any-reverse p s)))

lstrip_id : (s : Text) → any is_space s ≡ false → lstrip s ≡ s
unfolding lstrip
lstrip_id [] h = refl
lstrip_id (c ∷ s) h = ground arith

-- A text without white space is its own `strip`.
pub strip_id : (s : Text) → any is_space s ≡ false → strip s ≡ s
unfolding strip
strip_id s h =
    rw (lstrip_id s h) (rw (lstrip_id (reverse s) (any-reverse is_space s ∙ h)) (reverse-reverse s))
