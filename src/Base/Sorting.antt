-- ===== src/Base/Sorting.antt =====
-- Python's `sorted`, which is stable: insertion by a strict comparison of the keys.
use mathlib.Core.Path.{◌≡◌, refl}
use mathlib.Core.Logic.{inl, inr}
use mathlib.Core.Bool.{Bool, true, false, ◌||◌}
use mathlib.Core.List.{List, [], ◌∷◌, Perm}
use mathlib.Core.List.Perm
use native.Mathlib.Omega.{arith}
use lanrouge_nails_bot.Base.Tests.{if◌then◌else◌, Bool-cases}
use lanrouge_nails_bot.Base.Lists.{any, All, AllPairs}

module _ {A : Type 0} (lt : A → A → Bool) where
  abbrev pub insert : A → List A → List A
  insert x [] = x ∷ []
  insert x (y ∷ ys) = if lt y x then y ∷ insert x ys else x ∷ y ∷ ys

  abbrev pub sorted : List A → List A
  sorted [] = []
  sorted (x ∷ xs) = insert x (sorted xs)

  insert-perm : (x : A) (ys : List A) → Perm (insert x ys) (x ∷ ys)
  insert-perm x [] = Perm.refl (x ∷ [])
  insert-perm x (y ∷ ys) = elim (Bool-cases (lt y x)) [
    | inl later ↦ rw later (Perm.trans (Perm.cons y (insert-perm x ys)) (Perm.swap x y ys))
    | inr here ↦ rw here (Perm.refl (x ∷ y ∷ ys))
  ]

  pub sorted-perm : (xs : List A) → Perm (sorted xs) xs
  sorted-perm [] = Perm.refl []
  sorted-perm (x ∷ xs) = Perm.trans (insert-perm x (sorted xs)) (Perm.cons x (sorted-perm xs))

  any-insert : (p : A → Bool) (x : A) (ys : List A) → any p (insert x ys) ≡ p x || any p ys
  any-insert p x [] = refl
  any-insert p x (y ∷ ys) = ground (arith, any-insert p x ys)

  pub any-sorted : (p : A → Bool) (xs : List A) → any p (sorted xs) ≡ any p xs
  any-sorted p [] = refl
  any-sorted p (x ∷ xs) = ground (arith, any-insert p x (sorted xs), any-sorted p xs)

  All-insert : (P : A → Type 0) (x : A) (ys : List A) → P x → All P ys → All P (insert x ys)
  All-insert P x [] h hs = (h, tt)
  All-insert P x (y ∷ ys) h hs = elim (Bool-cases (lt y x)) [
    | inl later ↦ rw later (hs.0, All-insert P x ys h hs.1)
    | inr here ↦ rw here (h, hs)
  ]

  pub All-sorted : (P : A → Type 0) (xs : List A) → All P xs → All P (sorted xs)
  All-sorted P [] h = tt
  All-sorted P (x ∷ xs) h = All-insert P x (sorted xs) h.0 (All-sorted P xs h.1)

  All-uninsert : (P : A → Type 0) (x : A) (ys : List A) → All P (insert x ys) → P x × All P ys
  All-uninsert P x [] h = h
  All-uninsert P x (y ∷ ys) h = elim (Bool-cases (lt y x)) [
    | inl later ↦
        let moved : P y × All P (insert x ys) = rw later at h in
        let (hx, hys) = All-uninsert P x ys moved.1 in (hx, (moved.0, hys))
    | inr here ↦ rw here at h
  ]

  pub All-unsorted : (P : A → Type 0) (xs : List A) → All P (sorted xs) → All P xs
  All-unsorted P [] h = tt
  All-unsorted P (x ∷ xs) h =
      let (hx, rest) = All-uninsert P x (sorted xs) h in (hx, All-unsorted P xs rest)

  -- A symmetric relation between all pairs does not see the order of the list.
  module _ (R : A → A → Type 0) (symmetric : (a b : A) → R a b → R b a) where
    AllPairs-insert :
        (x : A) (ys : List A) → All (R x) ys → AllPairs R ys → AllPairs R (insert x ys)
    AllPairs-insert x [] h hs = (tt, tt)
    AllPairs-insert x (y ∷ ys) h hs = elim (Bool-cases (lt y x)) [
      | inl later ↦
          rw later (All-insert (R y) x ys (symmetric x y h.0) hs.0, AllPairs-insert x ys h.1 hs.1)
      | inr here ↦ rw here (h, hs)
    ]

    pub AllPairs-sorted : (xs : List A) → AllPairs R xs → AllPairs R (sorted xs)
    AllPairs-sorted [] h = tt
    AllPairs-sorted (x ∷ xs) h =
        AllPairs-insert x (sorted xs) (All-sorted (R x) xs h.0) (AllPairs-sorted xs h.1)

    AllPairs-uninsert :
        (x : A) (ys : List A) → AllPairs R (insert x ys) → All (R x) ys × AllPairs R ys
    AllPairs-uninsert x [] h = (tt, tt)
    AllPairs-uninsert x (y ∷ ys) h = elim (Bool-cases (lt y x)) [
      | inl later ↦
          let moved : All (R y) (insert x ys) × AllPairs R (insert x ys) = rw later at h in
          let (yx, y_rest) = All-uninsert (R y) x ys moved.0 in
          let (x_rest, rest) = AllPairs-uninsert x ys moved.1 in
          ((symmetric y x yx, x_rest), (y_rest, rest))
      | inr here ↦ rw here at h
    ]

    pub AllPairs-unsorted : (xs : List A) → AllPairs R (sorted xs) → AllPairs R xs
    AllPairs-unsorted [] h = tt
    AllPairs-unsorted (x ∷ xs) h =
        let (x_rest, rest) = AllPairs-uninsert x (sorted xs) h in
        (All-unsorted (R x) xs x_rest, AllPairs-unsorted xs rest)

  -- Where the comparison is a strict weak order, no later element goes before an earlier one.
  module _ (asymmetric : (a b : A) → lt a b ≡ true → lt b a ≡ false)
      (between : (a b c : A) → lt b a ≡ false → lt c b ≡ false → lt c a ≡ false) where
    abbrev pub NotBefore : A → A → Type 0
    NotBefore a b = lt b a ≡ false

    weaken : (x y : A) (zs : List A) → All (NotBefore y) zs → lt y x ≡ false → All (NotBefore x) zs
    weaken x y [] hs first = tt
    weaken x y (z ∷ zs) hs first = (between x y z first hs.0, weaken x y zs hs.1 first)

    insert-IsSorted :
        (x : A) (ys : List A) → AllPairs NotBefore ys → AllPairs NotBefore (insert x ys)
    insert-IsSorted x [] h = (tt, tt)
    insert-IsSorted x (y ∷ ys) h = elim (Bool-cases (lt y x)) [
      | inl later ↦
          rw later
            (All-insert (NotBefore y) x ys (asymmetric y x later) h.0, insert-IsSorted x ys h.1)
      | inr here ↦ rw here ((here, weaken x y ys h.0 here), h)
    ]

    pub sorted-IsSorted : (xs : List A) → AllPairs NotBefore (sorted xs)
    sorted-IsSorted [] = tt
    sorted-IsSorted (x ∷ xs) = insert-IsSorted x (sorted xs) (sorted-IsSorted xs)
