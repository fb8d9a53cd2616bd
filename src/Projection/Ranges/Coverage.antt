-- ===== src/Projection/Ranges/Coverage.antt =====
-- The subtraction of ranges, seen as sets of minutes.
use lanrouge_nails_bot.Base.{
  ℕ, ◌≤◌, ◌<◌, ◌≡◌, refl, Bool, not, if◌then◌else◌, min, max, ◌&&◌, List, [], ◌∷◌, ◌++◌, ltb, leb,
  arith, any, any-append, any-sorted, All, All-append, All-sorted, sorted,
}
use lanrouge_nails_bot.Errors.{ok}
use lanrouge_nails_bot.Projection.Ranges.{
  LocalMinuteRange, range_lt, cut, cut_all, subtract_from, subtract_ranges,
}

abbrev pub IsValid : LocalMinuteRange → Type 0
IsValid r = (r.start < r.end) × (r.end ≤ 1440)

-- The minute lies in the range.
abbrev pub covers : ℕ → LocalMinuteRange → Bool
covers m r = leb r.start m && ltb m r.end

-- The minute lies in one of the ranges.
abbrev pub covered : ℕ → List LocalMinuteRange → Bool
covered m rs = any (covers m) rs

-- The pieces that `cut` leaves of a valid source.
abbrev pub pieces : LocalMinuteRange → LocalMinuteRange → List LocalMinuteRange
pieces e s =
    if ltb s.start e.end && ltb e.start s.end
    then (if ltb s.start e.start
        then (if ltb e.end s.end
            then record { start = s.start; end = min s.end e.start }
              ∷ record { start = max s.start e.end; end = s.end }
              ∷ []
            else record { start = s.start; end = min s.end e.start } ∷ [])
        else if ltb e.end s.end
        then record { start = max s.start e.end; end = s.end } ∷ []
        else [])
    else s ∷ []

pub cut_lem : (e s : LocalMinuteRange) → IsValid s → cut e s ≡ ok (pieces e s)
unfolding cut
cut_lem e s v = ground arith

pub pieces-IsValid : (e s : LocalMinuteRange) → IsValid s → All IsValid (pieces e s)
pieces-IsValid e s v = ground arith

pub covered-pieces :
    (e s : LocalMinuteRange) (m : ℕ) → covered m (pieces e s) ≡ covers m s && not (covers m e)
covered-pieces e s m = ground arith

-- The ranges that are left of several sources.
abbrev pub remains : LocalMinuteRange → List LocalMinuteRange → List LocalMinuteRange
remains e [] = []
remains e (s ∷ ss) = pieces e s ++ remains e ss

pub cut_all_lem :
    (e : LocalMinuteRange) (ss : List LocalMinuteRange)
    → All IsValid ss
    → cut_all e ss ≡ ok (remains e ss)
unfolding cut_all
cut_all_lem e [] v = refl
cut_all_lem e (s ∷ ss) v = rw (cut_lem e s v.0) (rw (cut_all_lem e ss v.1))

pub remains-IsValid :
    (e : LocalMinuteRange) (ss : List LocalMinuteRange)
    → All IsValid ss
    → All IsValid (remains e ss)
remains-IsValid e [] v = tt
remains-IsValid e (s ∷ ss) v =
    All-append IsValid (pieces e s) (remains e ss) (pieces-IsValid e s v.0)
      (remains-IsValid e ss v.1)

covered-remains :
    (e : LocalMinuteRange) (ss : List LocalMinuteRange) (m : ℕ)
    → covered m (remains e ss) ≡ covered m ss && not (covers m e)
covered-remains e [] m = refl
covered-remains e (s ∷ ss) m =
    rw (any-append (covers m) (pieces e s) (remains e ss))
      (ground (arith, covered-pieces e s m, covered-remains e ss m))

-- What several exclusions, one after the other, leave of the sources.
abbrev pub difference : List LocalMinuteRange → List LocalMinuteRange → List LocalMinuteRange
difference ss [] = ss
difference ss (e ∷ es) = difference (remains e ss) es

pub subtract_from_lem :
    (ss es : List LocalMinuteRange) → All IsValid ss → subtract_from ss es ≡ ok (difference ss es)
unfolding subtract_from
subtract_from_lem ss [] v = refl
subtract_from_lem ss (e ∷ es) v =
    rw (cut_all_lem e ss v) (subtract_from_lem (remains e ss) es (remains-IsValid e ss v))

difference-IsValid :
    (ss es : List LocalMinuteRange) → All IsValid ss → All IsValid (difference ss es)
difference-IsValid ss [] v = v
difference-IsValid ss (e ∷ es) v = difference-IsValid (remains e ss) es (remains-IsValid e ss v)

covered-difference :
    (ss es : List LocalMinuteRange) (m : ℕ)
    → covered m (difference ss es) ≡ covered m ss && not (covered m es)
covered-difference ss [] m = ground arith
covered-difference ss (e ∷ es) m =
    ground (arith, covered-difference (remains e ss) es m, covered-remains e ss m)

-- From valid sources a subtraction always returns, its ranges are valid, and a minute lies in one
-- of them exactly when it lies in a source and in no exclusion.
pub subtract_ranges-covers :
    (sources exclusions : List LocalMinuteRange)
    → All IsValid sources
    → (rs : List LocalMinuteRange) × (subtract_ranges sources exclusions ≡ ok rs)
      × All IsValid rs
      × ((m : ℕ) → covered m rs ≡ covered m sources && not (covered m exclusions))
unfolding subtract_ranges
subtract_ranges-covers sources exclusions v =
    let ss = sorted range_lt sources in
    let es = sorted range_lt exclusions in
    let valid = All-sorted range_lt IsValid sources v in
    (
      difference ss es,
      subtract_from_lem ss es valid,
      difference-IsValid ss es valid,
      λ m. ground (
        arith,
        covered-difference ss es m,
        any-sorted range_lt (covers m) sources,
        any-sorted range_lt (covers m) exclusions,
      ),
    )
