-- ===== src/Projection/Zones.antt =====
-- app/domain/schedule_projection.py: local wall-clock boundaries as UTC instants. The timezone
-- database and the conversions of `datetime` by it are a parameter.
use lanrouge_nails_bot.Base.{
  ℕ, zero, suc, ◌+◌, ◌*◌, ◌/◌, ◌%◌, Bool, ◌&&◌, List, [], ◌∷◌, ◌++◌, any, sorted, ltb, ◌==◌,
  if◌then◌else◌,
}
use lanrouge_nails_bot.Errors.{Result, ok, err, window_validation}
use lanrouge_nails_bot.Time.{minutes, hours, days}
pub mod Fixed

-- `ZoneInfo`: the wall clock and the fold of an instant, and the instant of a wall clock and fold.
pub record Zone : Type 0 where
  pub to_local : ℕ → ℕ × ℕ
  pub to_utc : ℕ → ℕ → ℕ

module _ (zone : Zone) where
  -- `instants.add(utc)`, for one fold whose conversion round-trips
  add_instant : ℕ → ℕ → List ℕ → List ℕ
  add_instant local_naive fold instants =
      let utc = zone.to_utc local_naive fold in
      let (wall, wall_fold) = zone.to_local utc in
      if wall == local_naive && wall_fold == fold
      then (if any (λ i. i == utc) instants then instants else instants ++ utc ∷ [])
      else instants

  unfoldable pub valid_utc_instants : ℕ → List ℕ
  unfolding add_instant
  valid_utc_instants local_naive =
      sorted ltb (add_instant local_naive 1 (add_instant local_naive 0 []))

  -- `max(instants) if prefer_late else min(instants)`, of sorted instants
  pick : Bool → ℕ → List ℕ → ℕ
  pick prefer_late earliest [] = earliest
  pick prefer_late earliest (i ∷ instants) =
      if prefer_late then pick prefer_late i instants else earliest

  -- The loop over the shifts that are left.
  unfoldable pub resolve_from : Bool → ℕ → ℕ → Result ℕ
  unfolding pick
  resolve_from prefer_late zero candidate = err window_validation
  resolve_from prefer_late (suc shifts) candidate = elim (valid_utc_instants candidate) [
    | [] ↦ resolve_from prefer_late shifts (candidate + minutes 1)
    | i ∷ instants ↦ ok (pick prefer_late i instants)
  ]

  -- `range(181)`
  unfoldable pub resolve_boundary : ℕ → ℕ → Bool → Result ℕ
  unfolding resolve_from
  resolve_boundary local_date minute prefer_late =
      let boundary_date = local_date + minute / 1440 in
      let minute_in_day = minute % 1440 in
      resolve_from prefer_late 181
        (days boundary_date + hours (minute_in_day / 60) + minutes (minute_in_day % 60))
