-- ===== src/Projection/Groups/Checks.antt =====
-- Grouping intervals by a key and checking each group finds every two that overlap under one key.
use lanrouge_nails_bot.Base.{
  ◌≡◌, ◌↔◌, refl, sym, Bool, true, false, List, [], ◌∷◌, ◌++◌, All, All-append, AllPairs,
  All-unappend, All_of, ap, ◌∙◌, if◌then◌else◌, Bool-cases, inl, inr,
}
use lanrouge_nails_bot.Errors.{ok, >>=-eq-ok}
use lanrouge_nails_bot.Projection.Ranges.{LocalMinuteRange, ensure_ranges_do_not_overlap}
use lanrouge_nails_bot.Projection.Ranges.Coverage.{IsValid}
use lanrouge_nails_bot.Projection.Ranges.Disjoint.{Disjoint, ensure_ranges_do_not_overlap_iff}
use lanrouge_nails_bot.Projection.Groups.{Key, Groups, setdefault_append, ensure_groups}

abbrev pub AreDisjoint : {K : Type 0} → Groups K → Type 0
AreDisjoint grouped = All (λ g. AllPairs Disjoint g.1) grouped

abbrev pub AreValid : {K : Type 0} → Groups K → Type 0
AreValid grouped = All (λ g. All IsValid g.1) grouped

pub ensure_groups_sound :
    {K : Type 0} (grouped : Groups K)
    → AreValid grouped
    → ensure_groups grouped ≡ ok tt
    → AreDisjoint grouped
unfolding ensure_groups
ensure_groups_sound [] v h = tt
ensure_groups_sound ((_, rs) ∷ grouped) v h =
    let (x, passed, rest) =
      >>=-eq-ok (ensure_ranges_do_not_overlap rs) (λ _. ensure_groups grouped) h in
    ((ensure_ranges_do_not_overlap_iff rs v.0).0 passed, ensure_groups_sound grouped v.1 rest)

pub ensure_groups_complete :
    {K : Type 0} (grouped : Groups K)
    → AreValid grouped
    → AreDisjoint grouped
    → ensure_groups grouped ≡ ok tt
unfolding ensure_groups
ensure_groups_complete [] v d = refl
ensure_groups_complete ((_, rs) ∷ grouped) v d =
    rw ((ensure_ranges_do_not_overlap_iff rs v.0).1 d.0) (ensure_groups_complete grouped v.1 d.1)

true≢false : ¬ (◌≡◌ {A = Bool} true false)
true≢false h = cc

split_last :
    (r : LocalMinuteRange) (rs : List LocalMinuteRange)
    → AllPairs Disjoint (rs ++ r ∷ [])
    → AllPairs Disjoint rs × All (λ x. Disjoint x r) rs
split_last r [] d = (tt, tt)
split_last r (x ∷ rs) d =
    let (before, last) = split_last r rs d.1 in
    let (apart, from_last) = All-unappend (Disjoint x) rs (r ∷ []) d.0 in
    ((apart, before), (from_last.0, last))

join_last :
    (r : LocalMinuteRange) (rs : List LocalMinuteRange)
    → AllPairs Disjoint rs
    → All (λ x. Disjoint x r) rs
    → AllPairs Disjoint (rs ++ r ∷ [])
join_last r [] d h = (tt, tt)
join_last r (x ∷ rs) d h =
    (All-append (Disjoint x) rs (r ∷ []) d.0 (h.0, tt), join_last r rs d.1 h.1)

module _ {K : Type 0} ⦃k : Key K⦄ where
  absurd_same : (a b : K) → k.same a b ≡ false → a ≡ b → ⊥
  absurd_same a b h e =
      let s : k.same a b ≡ true = rw (← e) (k.same_refl a) in true≢false (sym s ∙ h)

  -- The intervals under a key.
  abbrev pub find : K → Groups K → List LocalMinuteRange
  find key [] = []
  find key ((j, rs) ∷ grouped) = if k.same j key then rs else find key grouped

  -- The groups after a list of keyed intervals.
  abbrev pub group_items : Groups K → List (K × LocalMinuteRange) → Groups K
  group_items grouped [] = grouped
  group_items grouped ((key, r) ∷ items) = group_items (setdefault_append key r grouped) items

  -- Two keyed intervals do not overlap if their keys are the same.
  abbrev pub Apart : K × LocalMinuteRange → K × LocalMinuteRange → Type 0
  Apart a b = a.0 ≡ b.0 → Disjoint a.1 b.1

  append-AreValid :
      (key : K) (r : LocalMinuteRange) (grouped : Groups K)
      → IsValid r
      → AreValid grouped
      → AreValid (setdefault_append key r grouped)
  append-AreValid key r [] w v = ((w, tt), tt)
  append-AreValid key r ((j, rs) ∷ grouped) w v = elim (Bool-cases (k.same j key)) [
    | inl found ↦ rw found (All-append IsValid rs (r ∷ []) v.0 (w, tt), v.1)
    | inr other ↦ rw other (v.0, append-AreValid key r grouped w v.1)
  ]

  pub group_items-AreValid :
      (grouped : Groups K) (items : List (K × LocalMinuteRange))
      → All (λ i. IsValid i.1) items
      → AreValid grouped
      → AreValid (group_items grouped items)
  group_items-AreValid grouped [] w v = v
  group_items-AreValid grouped ((key, r) ∷ items) w v =
      group_items-AreValid (setdefault_append key r grouped) items w.1
        (append-AreValid key r grouped w.0 v)

  append-AreDisjoint :
      (key : K) (r : LocalMinuteRange) (grouped : Groups K)
      → AreDisjoint (setdefault_append key r grouped)
        ↔ (AreDisjoint grouped × All (λ x. Disjoint x r) (find key grouped))
  append-AreDisjoint key r [] = (λ d. (tt, tt), λ d. ((tt, tt), tt))
  append-AreDisjoint key r ((j, rs) ∷ grouped) = elim (Bool-cases (k.same j key)) [
    | inl found ↦ rw found (
      λ d. let (before, last) = split_last r rs d.0 in ((before, d.1), last),
      λ d. (join_last r rs d.0.0 d.1, d.0.1),
    )
    | inr other ↦ rw other (
      λ d. let (before, last) = (append-AreDisjoint key r grouped).0 d.1 in ((d.0, before), last),
      λ d. (d.0.0, (append-AreDisjoint key r grouped).1 (d.0.1, d.1)),
    )
  ]

  find-append_self :
      (key : K) (r : LocalMinuteRange) (grouped : Groups K)
      → find key (setdefault_append key r grouped) ≡ find key grouped ++ r ∷ []
  find-append_self key r [] = rw (k.same_refl key)
  find-append_self key r ((i, rs) ∷ grouped) = elim (Bool-cases (k.same i key)) [
    | inl found ↦ rw found (rw found)
    | inr other ↦ rw other (rw other (find-append_self key r grouped))
  ]

  find-append_other :
      (key j : K) (r : LocalMinuteRange) (grouped : Groups K)
      → k.same key j ≡ false
      → find j (setdefault_append key r grouped) ≡ find j grouped
  find-append_other key j r [] h = rw h
  find-append_other key j r ((i, rs) ∷ grouped) h = elim (Bool-cases (k.same i key)) [
    | inl found ↦
        let apart : k.same i j ≡ false = rw (k.same_sound i key found) h in rw found (rw apart)
    | inr other ↦
        rw other (ap (λ g. if k.same i j then rs else g) (find-append_other key j r grouped h))
  ]

  -- The items do not overlap the groups that are there.
  abbrev Clears : Groups K → List (K × LocalMinuteRange) → Type 0
  Clears grouped items = All (λ i. All (λ x. Disjoint x i.1) (find i.0 grouped)) items

  Clears-append :
      (key : K) (r : LocalMinuteRange) (grouped : Groups K) (items : List (K × LocalMinuteRange))
      → Clears (setdefault_append key r grouped) items
        ↔ (Clears grouped items × All (Apart (key, r)) items)
  Clears-append key r grouped [] = (λ h. (tt, tt), λ h. tt)
  Clears-append key r grouped ((j, x) ∷ items) =
      let (to, from) = Clears-append key r grouped items in
      elim (Bool-cases (k.same key j)) [
        | inl one ↦
            let e = k.same_sound key j one in
            rw (← e) (
              rw (find-append_self key r grouped) (
                λ h.
                    let (old, new) =
                      All-unappend (λ y. Disjoint y x) (find key grouped) (r ∷ []) h.0 in
                    ((old, (to h.1).0), (λ _. new.0, (to h.1).1)),
                λ h. (
                  All-append (λ y. Disjoint y x) (find key grouped) (r ∷ []) h.0.0 (h.1.0 refl, tt),
                  from (h.0.1, h.1.1),
                ),
              ))
        | inr two ↦
            let distinct = λ (e : key ≡ j). absurd_same key j two e in
            rw (find-append_other key j r grouped two) (
              λ h. ((h.0, (to h.1).0), (λ e. absurd (distinct e), (to h.1).1)),
              λ h. (h.0.0, from (h.0.1, h.1.1)),
            )
      ]

  -- The groups are disjoint at the end exactly when they were, and the new items overlap neither
  -- them nor each other under one key.
  group_items-AreDisjoint :
      (grouped : Groups K) (items : List (K × LocalMinuteRange))
      → AreDisjoint (group_items grouped items)
        ↔ ((AreDisjoint grouped × Clears grouped items) × AllPairs Apart items)
  group_items-AreDisjoint grouped [] = (λ d. ((d, tt), tt), λ d. d.0.0)
  group_items-AreDisjoint grouped ((key, r) ∷ items) =
      let (to, from) = group_items-AreDisjoint (setdefault_append key r grouped) items in
      let (to_append, from_append) = append-AreDisjoint key r grouped in
      let (to_clear, from_clear) = Clears-append key r grouped items in
      (
        λ d.
            let (before, pairs) = to d in
            let (old, clear) = to_append before.0 in
            let (rest, apart) = to_clear before.1 in ((old, (clear, rest)), (apart, pairs)),
        λ d. from ((from_append (d.0.0, d.0.1.0), from_clear (d.0.1.1, d.1.0)), d.1.1),
      )

  -- Groups that are built from nothing are disjoint exactly when no two items overlap under one
  -- key.
  pub group_items_iff :
      (items : List (K × LocalMinuteRange))
      → AreDisjoint (group_items [] items) ↔ AllPairs Apart items
  group_items_iff items =
      let (to, from) = group_items-AreDisjoint [] items in
      (λ d. (to d).1, λ d. from ((tt, All_of (λ i. tt) items), d))
