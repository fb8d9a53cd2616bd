-- ===== src/Base/Lex.antt =====
-- Python's lexicographic order of tuples and texts, as lists of numbers.
use Prim.Native.Nat.{ℕ, ◌≤◌}
use mathlib.Core.Path.{◌≡◌, refl}
use mathlib.Core.Bool.{Bool, true, false, ◌&&◌, ◌||◌}
use mathlib.Core.List.{List, [], ◌∷◌}
use native.Mathlib.Omega.{arith}
use lanrouge_nails_bot.Base.Tests.{ltb, ◌==◌}

abbrev pub lex_lt : List ℕ → List ℕ → Bool
lex_lt [] [] = false
lex_lt [] (b ∷ bs) = true
lex_lt (a ∷ xs) [] = false
lex_lt (a ∷ xs) (b ∷ bs) = ltb a b || (a == b && lex_lt xs bs)

pub lex_lt_asymmetric : (a b : List ℕ) → lex_lt a b ≡ true → lex_lt b a ≡ false
lex_lt_asymmetric [] [] h = refl
lex_lt_asymmetric [] (b ∷ bs) h = refl
lex_lt_asymmetric (a ∷ xs) [] h = ground arith
lex_lt_asymmetric (a ∷ xs) (b ∷ bs) h = ground (arith, lex_lt_asymmetric xs bs)

pub lex_lt_between : (a b c : List ℕ) → lex_lt b a ≡ false → lex_lt c b ≡ false → lex_lt c a ≡ false
lex_lt_between [] [] [] h k = refl
lex_lt_between [] [] (c ∷ cs) h k = refl
lex_lt_between [] (b ∷ bs) [] h k = ground arith
lex_lt_between [] (b ∷ bs) (c ∷ cs) h k = refl
lex_lt_between (a ∷ xs) [] c h k = ground arith
lex_lt_between (a ∷ xs) (b ∷ bs) [] h k = ground arith
lex_lt_between (a ∷ xs) (b ∷ bs) (c ∷ cs) h k = ground (arith, lex_lt_between xs bs cs)

-- The first components of two keys in order are in order.
pub lex_lt-head : (a b : ℕ) (xs bs : List ℕ) → lex_lt (b ∷ bs) (a ∷ xs) ≡ false → a ≤ b
lex_lt-head a b xs bs h = ground arith
