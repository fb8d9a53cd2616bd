-- ===== src/Projection/Zones/Fixed.antt =====
-- A zone whose offset never changes: every wall clock is one instant.
use lanrouge_nails_bot.Base.{ℕ, ◌+◌, ◌-◌, ◌/◌, ◌%◌, ◌≤◌, ◌≡◌, ◌∙◌, Bool, [], ◌∷◌, arith}
use lanrouge_nails_bot.Errors.{ok}
use lanrouge_nails_bot.Time.{minutes, days, hours}
use lanrouge_nails_bot.Projection.Zones.{Zone, valid_utc_instants, resolve_from, resolve_boundary}

-- The zone that is `offset` ahead of UTC.
abbrev pub ahead_of_utc : ℕ → Zone
ahead_of_utc offset = record {
  to_local = λ utc. (utc + offset, 0);
  to_utc = λ wall fold. wall - offset;
}

valid_utc_instants-ahead :
    (offset wall : ℕ)
    → offset ≤ wall
    → valid_utc_instants (ahead_of_utc offset) wall ≡ (wall - offset) ∷ []
unfolding valid_utc_instants
valid_utc_instants-ahead offset wall h = ground arith

resolve_from-ahead :
    (offset wall : ℕ) (prefer_late : Bool)
    → offset ≤ wall
    → resolve_from (ahead_of_utc offset) prefer_late 181 wall ≡ ok (wall - offset)
unfolding resolve_from
resolve_from-ahead offset wall prefer_late h =
    ground (arith, valid_utc_instants-ahead offset wall h)

-- In a zone ahead of UTC by a constant, a boundary is the midnight of its date, its minutes later,
-- the offset earlier; minute 1440 is the next midnight.
pub resolve_boundary-ahead :
    (offset date minute : ℕ) (prefer_late : Bool)
    → offset ≤ days date
    → resolve_boundary (ahead_of_utc offset) date minute prefer_late
      ≡ ok (days date + minutes minute - offset)
unfolding resolve_boundary
resolve_boundary-ahead offset date minute prefer_late h =
    let wall =
      days (date + minute / 1440) + hours (minute % 1440 / 60) + minutes (minute % 1440 % 60) in
    let same : wall ≡ days date + minutes minute = omega arith in
    resolve_from-ahead offset wall prefer_late (omega arith) ∙ rw same
