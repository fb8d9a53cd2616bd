-- ===== src/Availability/Spacing.antt =====
-- What the capacity and spacing rule keeps of the windows of one day.
use lanrouge_nails_bot.Base.{
  ℕ, ◌+◌, ◌≤◌, ◌<◌, ◌≡◌, ◌↔◌, ◌⊎◌, refl, List, [], ◌∷◌, length, All, AllPairs, leb, arith,
}
use lanrouge_nails_bot.Errors.{Result, ok, ◌>>◌, >>=-eq-ok, raise_if}
use lanrouge_nails_bot.Time.{minutes}
use lanrouge_nails_bot.Availability.{
  ExistingInterval, validate_spacing, validate_spacings, validate_capacity_and_spacing,
}

-- The one window ends the gap or more before the other begins.
abbrev pub Spaced : ℕ → ExistingInterval → ExistingInterval → Type 0
Spaced gap a b = (a.end_at + gap ≤ b.start_at) ⊎ (b.end_at + gap ≤ a.start_at)

abbrev pub IsPositive : ExistingInterval → Type 0
IsPositive w = w.start_at < w.end_at

validate_spacing_iff :
    (gap : ℕ) (w v : ExistingInterval)
    → IsPositive w
    → IsPositive v
    → (validate_spacing w.start_at w.end_at gap v ≡ ok tt) ↔ Spaced gap w v
unfolding validate_spacing
validate_spacing_iff gap w v p q = (λ h. ground arith, λ h. ground arith)

validate_spacings_iff :
    (gap : ℕ) (w : ExistingInterval) (existing : List ExistingInterval)
    → IsPositive w
    → All IsPositive existing
    → (validate_spacings w.start_at w.end_at gap existing ≡ ok tt) ↔ All (Spaced gap w) existing
unfolding validate_spacings
validate_spacings_iff gap w [] p q = (λ h. tt, λ h. refl)
validate_spacings_iff gap w (v ∷ existing) p q =
    let (to, from) = validate_spacing_iff gap w v p q.0 in
    let (to_rest, from_rest) = validate_spacings_iff gap w existing p q.1 in
    (
      λ h.
          let (x, first, rest) =
            >>=-eq-ok (validate_spacing w.start_at w.end_at gap v)
              (λ _. validate_spacings w.start_at w.end_at gap existing) h in
          (to first, to_rest rest),
      λ h. rw (from h.0) (from_rest h.1),
    )

-- A window of positive length is accepted exactly when the day has room for one more and every
-- window of the day is the minimum gap or more away from it.
validate_capacity_and_spacing_iff :
    (w : ExistingInterval) (existing : List ExistingInterval) (limit gap_minutes : ℕ)
    → IsPositive w
    → All IsPositive existing
    → (validate_capacity_and_spacing w.start_at w.end_at existing limit gap_minutes ≡ ok tt)
      ↔ ((length existing < limit) × All (Spaced (minutes gap_minutes) w) existing)
unfolding validate_capacity_and_spacing
validate_capacity_and_spacing_iff w existing limit gap_minutes p q =
    let (to, from) = validate_spacings_iff (minutes gap_minutes) w existing p q in
    (
      λ h.
          let (x, room, spaced) =
            >>=-eq-ok (raise_if (leb limit (length existing)) _)
              (λ _. validate_spacings w.start_at w.end_at (minutes gap_minutes) existing) h in
          (ground arith, to spaced),
      λ h. ground (arith, from h.1),
    )

-- The windows of a day after those of a list have been created, each validated against the ones
-- before it.
abbrev pub create_windows :
    ℕ → ℕ → List ExistingInterval → List ExistingInterval → Result (List ExistingInterval)
create_windows limit gap_minutes existing [] = ok existing
create_windows limit gap_minutes existing (w ∷ ws) =
    validate_capacity_and_spacing w.start_at w.end_at existing limit gap_minutes
    >> create_windows limit gap_minutes (w ∷ existing) ws

-- However many windows of positive length are created on a day, each validated against the ones
-- that are there, no two are closer than the minimum gap and their number never passes the limit,
-- if both held at first.
pub create_windows-Spaced :
    (limit gap_minutes : ℕ) (existing ws day : List ExistingInterval)
    → All IsPositive existing
    → All IsPositive ws
    → create_windows limit gap_minutes existing ws ≡ ok day
    → length existing ≤ limit
    → AllPairs (Spaced (minutes gap_minutes)) existing
    → (length day ≤ limit) × AllPairs (Spaced (minutes gap_minutes)) day
create_windows-Spaced limit gap_minutes existing [] day p q h room spaced = ground arith
create_windows-Spaced limit gap_minutes existing (w ∷ ws) day p q h room spaced =
    let (x, accepted, rest) =
      >>=-eq-ok (validate_capacity_and_spacing w.start_at w.end_at existing limit gap_minutes)
        (λ _. create_windows limit gap_minutes (w ∷ existing) ws) h in
    let (below, apart) =
      (validate_capacity_and_spacing_iff w existing limit gap_minutes q.0 p).0 accepted in
    create_windows-Spaced limit gap_minutes (w ∷ existing) ws day (q.0, p) q.1 rest (omega arith)
      (apart, spaced)
