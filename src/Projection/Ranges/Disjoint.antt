-- ===== src/Projection/Ranges/Disjoint.antt =====
-- Ranges that do not overlap: the check on a schedule, and what a subtraction keeps.
use lanrouge_nails_bot.Base.{
  ◌≤◌, ◌≡◌, ◌↔◌, refl, sym, ◌∙◌, true, false, List, [], ◌∷◌, arith, All, All-append, All-map,
  All-sorted, AllPairs, AllPairs-append, AllPairs-sorted, AllPairs-unsorted, sorted,
  sorted-IsSorted, NotBefore,
}
use lanrouge_nails_bot.Errors.{ok, ok-injective}
use lanrouge_nails_bot.Projection.Ranges.{
  LocalMinuteRange, range_lt, subtract_ranges, overlaps, ensure_neighbours,
  ensure_ranges_do_not_overlap,
}
use lanrouge_nails_bot.Projection.Ranges.Coverage.{
  IsValid, pieces, pieces-IsValid, remains, remains-IsValid, difference, subtract_from_lem,
}

abbrev pub Disjoint : LocalMinuteRange → LocalMinuteRange → Type 0
Disjoint a b = overlaps a b ≡ false

Disjoint-symm : (a b : LocalMinuteRange) → Disjoint a b → Disjoint b a
unfolding overlaps
Disjoint-symm a b h = ground arith

range_lt_asymmetric : (a b : LocalMinuteRange) → range_lt a b ≡ true → range_lt b a ≡ false
range_lt_asymmetric a b h = ground arith

range_lt_between :
    (a b c : LocalMinuteRange) → range_lt b a ≡ false → range_lt c b ≡ false → range_lt c a ≡ false
range_lt_between a b c h k = ground arith

abbrev IsOrdered : List LocalMinuteRange → Type 0
IsOrdered = AllPairs (NotBefore range_lt range_lt_asymmetric range_lt_between)

-- The one range ends before the other begins.
abbrev Before : LocalMinuteRange → LocalMinuteRange → Type 0
Before a b = a.end ≤ b.start

first_pair :
    (x y : LocalMinuteRange) (ys : List LocalMinuteRange)
    → IsValid y
    → range_lt y x ≡ false
    → ensure_neighbours (x ∷ y ∷ ys) ≡ ok tt
    → (x.end ≤ y.start) × (ensure_neighbours (y ∷ ys) ≡ ok tt)
unfolding ensure_neighbours
first_pair x y ys v o h = ground arith

after :
    (x y : LocalMinuteRange) (zs : List LocalMinuteRange)
    → IsValid y
    → x.end ≤ y.start
    → All (Before y) zs
    → All (Before x) zs
after x y zs v h = All-map (λ z hz. omega arith) zs

-- In order, it is enough that no range overlaps the next.
neighbours-Before :
    (x : LocalMinuteRange) (ys : List LocalMinuteRange)
    → All IsValid (x ∷ ys)
    → IsOrdered (x ∷ ys)
    → ensure_neighbours (x ∷ ys) ≡ ok tt
    → AllPairs Before (x ∷ ys)
unfolding ensure_neighbours
neighbours-Before x [] v o h = (tt, tt)
neighbours-Before x (y ∷ ys) v o h =
    let (apart, rest) = first_pair x y ys v.1.0 o.0.0 h in
    let ih = neighbours-Before y ys v.1 o.1 rest in ((apart, after x y ys v.1.0 apart ih.0), ih)

AllPairs-map :
    {R S : LocalMinuteRange → LocalMinuteRange → Type 0}
    → ((a b : LocalMinuteRange) → R a b → S a b)
    → (xs : List LocalMinuteRange) → AllPairs R xs
    → AllPairs S xs
AllPairs-map f [] h = tt
AllPairs-map f (x ∷ xs) h = (All-map (f x) xs h.0, AllPairs-map f xs h.1)

Before-Disjoint : (a b : LocalMinuteRange) → Before a b → Disjoint a b
unfolding overlaps
Before-Disjoint a b h = ground arith

sound :
    (xs : List LocalMinuteRange)
    → All IsValid xs
    → IsOrdered xs
    → ensure_neighbours xs ≡ ok tt
    → AllPairs Disjoint xs
sound [] v o h = tt
sound (x ∷ xs) v o h = AllPairs-map Before-Disjoint (x ∷ xs) (neighbours-Before x xs v o h)

complete : (xs : List LocalMinuteRange) → AllPairs Disjoint xs → ensure_neighbours xs ≡ ok tt
unfolding ensure_neighbours
complete [] h = refl
complete (x ∷ []) h = refl
complete (x ∷ y ∷ ys) h = rw h.0.0 (complete (y ∷ ys) h.1)

-- For valid ranges, in any order, the check passes exactly when no two of them overlap.
pub ensure_ranges_do_not_overlap_iff :
    (xs : List LocalMinuteRange)
    → All IsValid xs
    → (ensure_ranges_do_not_overlap xs ≡ ok tt) ↔ AllPairs Disjoint xs
unfolding ensure_ranges_do_not_overlap
ensure_ranges_do_not_overlap_iff xs v = (
  λ h. AllPairs-unsorted range_lt Disjoint Disjoint-symm xs (
      sound (sorted range_lt xs) (All-sorted range_lt IsValid xs v)
        (sorted-IsSorted range_lt range_lt_asymmetric range_lt_between xs) h),
  λ h. complete (sorted range_lt xs) (AllPairs-sorted range_lt Disjoint Disjoint-symm xs h),
)

-- The pieces of a source lie apart from whatever the source lies apart from, and from each other.
pieces_apart :
    (e s r : LocalMinuteRange)
    → IsValid s
    → IsValid r
    → Disjoint r s
    → All (Disjoint r) (pieces e s)
unfolding overlaps
pieces_apart e s r v w h = ground arith

-- A range that lies within another.
abbrev Inside : LocalMinuteRange → LocalMinuteRange → Type 0
Inside s p = (s.start ≤ p.start) × (p.end ≤ s.end)

pieces-Inside : (e s : LocalMinuteRange) → IsValid s → All (Inside s) (pieces e s)
pieces-Inside e s v = ground arith

pieces-Disjoint : (e s : LocalMinuteRange) → IsValid e → IsValid s → AllPairs Disjoint (pieces e s)
unfolding overlaps
pieces-Disjoint e s w v = ground arith

remains_apart :
    (e r : LocalMinuteRange) (ss : List LocalMinuteRange)
    → IsValid r
    → All IsValid ss
    → All (Disjoint r) ss
    → All (Disjoint r) (remains e ss)
remains_apart e r [] w v d = tt
remains_apart e r (s ∷ ss) w v d =
    All-append (Disjoint r) (pieces e s) (remains e ss) (pieces_apart e s r v.0 w d.0)
      (remains_apart e r ss w v.1 d.1)

-- Each of the pieces of one source lies apart from what is left of the others.
cross_apart :
    (e s : LocalMinuteRange) (ps ss : List LocalMinuteRange)
    → All IsValid ps
    → All (Inside s) ps
    → IsValid s
    → All IsValid ss
    → All (Disjoint s) ss
    → All (λ p. All (Disjoint p) (remains e ss)) ps
unfolding overlaps
cross_apart e s [] ss vp i vs v d = tt
cross_apart e s (p ∷ ps) ss vp i vs v d = (
  remains_apart e p ss vp.0 v (All-map (λ r h. ground arith) ss d),
  cross_apart e s ps ss vp.1 i.1 vs v d,
)

remains-Disjoint :
    (e : LocalMinuteRange) (ss : List LocalMinuteRange)
    → IsValid e
    → All IsValid ss
    → AllPairs Disjoint ss
    → AllPairs Disjoint (remains e ss)
remains-Disjoint e [] w v d = tt
remains-Disjoint e (s ∷ ss) w v d =
    AllPairs-append Disjoint (pieces e s) (remains e ss) (pieces-Disjoint e s w v.0)
      (remains-Disjoint e ss w v.1 d.1)
      (cross_apart e s (pieces e s) ss (pieces-IsValid e s v.0) (pieces-Inside e s v.0) v.0 v.1 d.0)

difference-Disjoint :
    (ss es : List LocalMinuteRange)
    → All IsValid es
    → All IsValid ss
    → AllPairs Disjoint ss
    → AllPairs Disjoint (difference ss es)
difference-Disjoint ss [] w v d = d
difference-Disjoint ss (e ∷ es) w v d =
    difference-Disjoint (remains e ss) es w.1 (remains-IsValid e ss v)
      (remains-Disjoint e ss w.0 v d)

-- A subtraction of valid ranges from valid sources that do not overlap returns ranges that do not
-- overlap.
subtract_ranges-Disjoint :
    (sources exclusions rs : List LocalMinuteRange)
    → All IsValid sources
    → All IsValid exclusions
    → AllPairs Disjoint sources
    → subtract_ranges sources exclusions ≡ ok rs
    → AllPairs Disjoint rs
unfolding subtract_ranges
subtract_ranges-Disjoint sources exclusions rs v w d h =
    let ss = sorted range_lt sources in
    let es = sorted range_lt exclusions in
    let valid = All-sorted range_lt IsValid sources v in
    let e : rs ≡ difference ss es = ok-injective (sym h ∙ subtract_from_lem ss es valid) in
    rw e (
      difference-Disjoint ss es (All-sorted range_lt IsValid exclusions w) valid
        (AllPairs-sorted range_lt Disjoint Disjoint-symm sources d))
