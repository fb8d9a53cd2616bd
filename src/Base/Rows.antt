-- ===== src/Base/Rows.antt =====
-- The rows of a table: the row that a query selects, and an update of the rows that a key selects.
use Prim.Native.Nat.{ℕ, ◌≤◌, ◌<◌, zero, suc}
use mathlib.Core.Path.{◌≡◌, refl, subst, ap}
use mathlib.Core.Logic.{inl, inr}
use mathlib.Core.Bool.{Bool, true, false}
use mathlib.Core.Option.{Option, none, some}
use mathlib.Core.List.{List, [], ◌∷◌}
use native.Mathlib.Omega.{arith}
use lanrouge_nails_bot.Base.Tests.{if◌then◌else◌, Bool-cases}
use lanrouge_nails_bot.Base.Lists.{All, AllPairs, All-select, select, length}

some-injective : {A : Type 0} {a b : A} → some a ≡ some b → a ≡ b
some-injective h = cc

module _ {A : Type 0} where
  -- The row of a `WHERE` that a unique key lets at most one row satisfy.
  abbrev pub find : (A → Bool) → List A → Option A
  find p [] = none
  find p (x ∷ xs) = if p x then some x else find p xs

  -- `UPDATE ... WHERE p`
  abbrev pub change : (A → Bool) → (A → A) → List A → List A
  change p f [] = []
  change p f (x ∷ xs) = let rest = change p f xs in if p x then f x ∷ rest else x ∷ rest

  -- The change of the one row that a query returned.
  abbrev pub change_first : (A → Bool) → (A → A) → List A → List A
  change_first p f [] = []
  change_first p f (x ∷ xs) = let rest = change_first p f xs in if p x then f x ∷ xs else x ∷ rest

  abbrev pub count : (A → Bool) → List A → ℕ
  count q [] = 0
  count q (x ∷ xs) = let rest = count q xs in if q x then suc rest else rest

  -- `LIMIT n`
  abbrev pub take : ℕ → List A → List A
  take zero xs = []
  take (suc n) [] = []
  take (suc n) (x ∷ xs) = x ∷ take n xs

  pub find-test : (p : A → Bool) (xs : List A) {a : A} → find p xs ≡ some a → p a ≡ true
  find-test p [] h = cc
  find-test p (x ∷ xs) h = elim (Bool-cases (p x)) [
    | inl here ↦ let same : some x ≡ some _ = rw here at h in ground arith
    | inr later ↦ find-test p xs (rw later at h)
  ]

  pub find-none-count : (p : A → Bool) (xs : List A) → find p xs ≡ none → count p xs ≡ 0
  find-none-count p [] h = refl
  find-none-count p (x ∷ xs) h = ground (arith, find-none-count p xs)

  pub All-find :
      (P : A → Type 0) (p : A → Bool) (xs : List A) {a : A} → All P xs → find p xs ≡ some a → P a
  All-find P p [] all h = ground arith
  All-find P p (x ∷ xs) all h = elim (Bool-cases (p x)) [
    | inl here ↦ let same : some x ≡ some _ = rw here at h in subst P (some-injective same) all.0
    | inr later ↦ All-find P p xs all.1 (rw later at h)
  ]

  pub All-change :
      (P : A → Type 0) (p : A → Bool) (f : A → A) (xs : List A)
      → ((a : A) → p a ≡ true → P a → P (f a))
      → All P xs
      → All P (change p f xs)
  All-change P p f [] kept all = tt
  All-change P p f (x ∷ xs) kept all = elim (Bool-cases (p x)) [
    | inl changed ↦ rw changed (kept x changed all.0, All-change P p f xs kept all.1)
    | inr same ↦ rw same (all.0, All-change P p f xs kept all.1)
  ]

  module _ (p : A → Bool) (f : A → A) (q : A → Bool)
      (dropped : (a : A) → p a ≡ true → q (f a) ≡ false) where
    pub count-change_le : (xs : List A) → count q (change p f xs) ≤ count q xs
    count-change_le [] = omega arith
    count-change_le (x ∷ xs) = ground (arith, dropped x, count-change_le xs)

    -- A row that counted, and that the change drops, is missing afterwards.
    pub count-change_lt :
        (r : A → Bool) (xs : List A) {a : A}
        → find r xs ≡ some a
        → p a ≡ true
        → q a ≡ true
        → suc (count q (change p f xs)) ≤ count q xs
    count-change_lt r [] found pa qa = ground arith
    count-change_lt r (x ∷ xs) found pa qa = elim (Bool-cases (r x)) [
      | inl here ↦
          let same : some x ≡ some _ = rw here at found in
          ground (arith, dropped x, count-change_le xs, some-injective same)
      | inr later ↦
          let rest = count-change_lt r xs (rw later at found) pa qa in
          ground (arith, dropped x, count-change_le xs, rest)
    ]

  pub count-change_same :
      (p : A → Bool) (f : A → A) (q : A → Bool) (xs : List A)
      → ((a : A) → p a ≡ true → q (f a) ≡ q a)
      → count q (change p f xs) ≡ count q xs
  count-change_same p f q [] same = refl
  count-change_same p f q (x ∷ xs) same = ground (arith, same x, count-change_same p f q xs same)

  -- A row that a query finds, after an update that it takes part in and that the query does not see.
  pub find-change :
      (p q : A → Bool) (f : A → A) (xs : List A) {x : A}
      → ((a : A) → p (f a) ≡ p a)
      → find p xs ≡ some x
      → q x ≡ true
      → find p (change q f xs) ≡ some (f x)
  find-change p q f [] kept found selected = ground arith
  find-change p q f (y ∷ ys) kept found selected = elim (Bool-cases (p y)) [
    | inl here ↦
        let same : some y ≡ some _ = rw here at found in ground (arith, some-injective same, kept y)
    | inr later ↦
        let rest = find-change p q f ys kept (rw later at found) selected in ground (arith, kept y)
  ]

  -- The row that a query finds, after a change of it that leaves it in the query.
  pub find-change_first :
      (p : A → Bool) (f : A → A) (xs : List A) {x : A}
      → ((a : A) → p a ≡ true → p (f a) ≡ true)
      → find p xs ≡ some x
      → find p (change_first p f xs) ≡ some (f x)
  find-change_first p f [] kept found = ground arith
  find-change_first p f (y ∷ ys) kept found = elim (Bool-cases (p y)) [
    | inl here ↦
        let same : some y ≡ some _ = rw here at found in
        ground (arith, some-injective same, kept y here)
    | inr later ↦ let rest = find-change_first p f ys kept (rw later at found) in ground arith
  ]

  pub count-change_first :
      (p : A → Bool) (f : A → A) (q : A → Bool) (xs : List A)
      → ((a : A) → p a ≡ true → q (f a) ≡ q a)
      → count q (change_first p f xs) ≡ count q xs
  count-change_first p f q [] same = refl
  count-change_first p f q (x ∷ xs) same = ground (arith, same x, count-change_first p f q xs same)

  -- An update that the query does not see, and that does not select the row that it finds.
  pub find-change_other :
      (p q : A → Bool) (f : A → A) (xs : List A) {x : A}
      → ((a : A) → p (f a) ≡ p a)
      → find p xs ≡ some x
      → q x ≡ false
      → find p (change q f xs) ≡ some x
  find-change_other p q f [] kept found skipped = ground arith
  find-change_other p q f (y ∷ ys) kept found skipped = elim (Bool-cases (p y)) [
    | inl here ↦
        let same : some y ≡ some _ = rw here at found in ground (arith, some-injective same, kept y)
    | inr later ↦
        let rest = find-change_other p q f ys kept (rw later at found) skipped in
        ground (arith, kept y)
  ]

  -- What an update makes true holds of the rows that it selected.
  pub change-All :
      (Q : A → Type 0) (p : A → Bool) (f : A → A) (xs : List A)
      → ((a : A) → Q (f a))
      → All (λ a. p a ≡ true → Q a) (change p f xs)
  change-All Q p f [] made = tt
  change-All Q p f (x ∷ xs) made = elim (Bool-cases (p x)) [
    | inl changed ↦ rw changed ((λ _. made x), change-All Q p f xs made)
    | inr same ↦ rw same ((λ selected. ground arith), change-All Q p f xs made)
  ]

module _ {A : Type 0} where
  pub All-take : (P : A → Type 0) (n : ℕ) (xs : List A) → All P xs → All P (take n xs)
  All-take P zero xs h = tt
  All-take P (suc n) [] h = tt
  All-take P (suc n) (x ∷ xs) h = (h.0, All-take P n xs h.1)

  pub AllPairs-take :
      (R : A → A → Type 0) (n : ℕ) (xs : List A) → AllPairs R xs → AllPairs R (take n xs)
  AllPairs-take R zero xs h = tt
  AllPairs-take R (suc n) [] h = tt
  AllPairs-take R (suc n) (x ∷ xs) h = (All-take (R x) n xs h.0, AllPairs-take R n xs h.1)

  pub AllPairs-select :
      (R : A → A → Type 0) (p : A → Bool) (xs : List A) → AllPairs R xs → AllPairs R (select p xs)
  AllPairs-select R p [] h = tt
  AllPairs-select R p (x ∷ xs) h = elim (Bool-cases (p x)) [
    | inl kept ↦ rw kept (All-select (R x) p xs h.0, AllPairs-select R p xs h.1)
    | inr dropped ↦ rw dropped (AllPairs-select R p xs h.1)
  ]

  pub length-take : (n : ℕ) (xs : List A) → length (take n xs) ≤ n
  length-take zero xs = omega arith
  length-take (suc n) [] = omega arith
  length-take (suc n) (x ∷ xs) = omega (arith, length-take n xs)

  -- What is shorter than the limit is not cut.
  pub take-short : (n : ℕ) (xs : List A) → length (take n xs) < n → take n xs ≡ xs
  take-short zero xs h = ground arith
  take-short (suc n) [] h = refl
  take-short (suc n) (x ∷ xs) h = ap (λ rest. x ∷ rest) (take-short n xs (omega arith))
