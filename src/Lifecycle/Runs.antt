-- ===== src/Lifecycle/Runs.antt =====
-- Sequences of status changes, each of which a validator accepts.
use lanrouge_nails_bot.Base.{
  ℕ, suc, ◌≤◌, ◌≡◌, Bool, true, false, List, [], ◌∷◌, ◌⊎◌, inl, inr, arith, if◌then◌else◌,
}
use lanrouge_nails_bot.Enums.{Enum, ◌is◌, contains, is→eq, is_refl}
use lanrouge_nails_bot.Errors.{Result, ok, ◌>>◌, >>=-eq-ok}

-- The changes of a run that are no replay of the current status.
abbrev pub changes : {S : Type 0} ⦃e : Enum S⦄ → S → List S → ℕ
changes s [] = 0
changes s (t ∷ ts) = let rest = changes t ts in if s is t then rest else suc rest

module _ {S : Type 0} (ensure : S → S → Result Unit) where
  -- The status after the changes to each of the targets, in order; an error if one is refused.
  abbrev pub run : S → List S → Result S
  run s [] = ok s
  run s (t ∷ ts) = ensure s t >> run t ts

  run-step :
      (s t : S) (ts : List S) (u : S)
      → run s (t ∷ ts) ≡ ok u
      → (ensure s t ≡ ok tt) × (run t ts ≡ ok u)
  run-step s t ts u r =
      let (x, accepted, rest) = >>=-eq-ok (ensure s t) (λ _. run t ts) r in (accepted, rest)

  -- A property that every accepted change keeps holds at the end of a run.
  pub run-closed :
      (P : S → Type 0)
      → ((s t : S) → ensure s t ≡ ok tt → P s → P t)
      → (s : S) (ts : List S) (u : S) → run s ts ≡ ok u
      → P s
      → P u
  run-closed P keep s [] u r h = ground arith
  run-closed P keep s (t ∷ ts) u r h =
      let (accepted, rest) = run-step s t ts u r in
      run-closed P keep t ts u rest (keep s t accepted h)

  module _ ⦃e : Enum S⦄ where
    -- A run into a set of statuses that is entered only by `gate` has a change to `gate`.
    pub run-gate :
        (inside : S → Bool) (gate : S)
        → ((s t : S) → ensure s t ≡ ok tt → inside s ≡ false → (t ≡ gate) ⊎ (inside t ≡ false))
        → (s : S) (ts : List S) (u : S) → run s ts ≡ ok u
        → inside s ≡ false
        → inside u ≡ true
        → contains gate ts ≡ true
    run-gate inside gate enter s [] u r out into = ground arith
    run-gate inside gate enter s (t ∷ ts) u r out into =
        let (accepted, rest) = run-step s t ts u r in
        elim (enter s t accepted out) [
          | inl e ↦ rw (e, is_refl gate)
          | inr still ↦ ground (arith, run-gate inside gate enter t ts u rest still into)
        ]

    -- If every accepted change but a replay lowers a rank, the rank bounds the changes of a run.
    pub run-rank :
        (rank : S → ℕ)
        → ((s t : S) → ensure s t ≡ ok tt → (s is t ≡ true) ⊎ (suc (rank t) ≤ rank s))
        → (s : S) (ts : List S) (u : S) → run s ts ≡ ok u
        → changes s ts ≤ rank s
    run-rank rank lower s [] u r = omega arith
    run-rank rank lower s (t ∷ ts) u r =
        let (accepted, rest) = run-step s t ts u r in
        elim (lower s t accepted) [
          | inl same ↦ rw same (rw (is→eq s t same) (run-rank rank lower t ts u rest))
          | inr below ↦ ground (arith, run-rank rank lower t ts u rest)
        ]
