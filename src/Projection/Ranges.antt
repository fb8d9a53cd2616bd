-- ===== src/Projection/Ranges.antt =====
-- app/domain/schedule_projection.py: half-open ranges of local minutes, their subtraction, and
-- the check that none overlap. Minutes are naturals, as those of wall-clock times are.
use lanrouge_nails_bot.Base.{
  ℕ, ◌+◌, ◌*◌, Bool, not, ◌&&◌, ◌||◌, List, [], ◌∷◌, ◌++◌, ltb, leb, ◌==◌, if◌then◌else◌, sorted,
  min, max,
}
use lanrouge_nails_bot.Errors.{Result, ok, window_validation, ◌>>=◌, ◌>>◌, raise_if}
pub mod Coverage
pub mod Disjoint

pub record LocalMinuteRange : Type 0 where
  pub start : ℕ
  pub end : ℕ

-- The check of `__post_init__`, which every construction of a range runs.
unfoldable pub local_minute_range : ℕ → ℕ → Result LocalMinuteRange
local_minute_range start end = do
  raise_if (not (ltb start end && leb end 1440)) window_validation
  ok (record { start = start; end = end })

-- `datetime.time`
pub record WallTime : Type 0 where
  pub hour : ℕ
  pub minute : ℕ
  pub second : ℕ
  pub microsecond : ℕ

unfoldable pub from_times : WallTime → WallTime → Result LocalMinuteRange
unfolding local_minute_range
from_times start end = do
  raise_if
      (not (start.second == 0)
        || not (start.microsecond == 0)
        || not (end.second == 0)
        || not (end.microsecond == 0))
      window_validation
  let start_minute = start.hour * 60 + start.minute
  let end_minute = end.hour * 60 + end.minute
  local_minute_range start_minute
      (if end_minute == 0 && ltb 0 start_minute then 1440 else end_minute)

unfoldable pub overlaps : LocalMinuteRange → LocalMinuteRange → Bool
overlaps a b = ltb a.start b.end && ltb b.start a.end

-- The order that `@dataclass(order=True)` derives: by start, then by end.
abbrev pub range_lt : LocalMinuteRange → LocalMinuteRange → Bool
range_lt a b = ltb a.start b.start || (a.start == b.start && ltb a.end b.end)

-- `LocalMinuteRange(start, end)` appended to a list, or no range.
append_when : Bool → ℕ → ℕ → List LocalMinuteRange → Result (List LocalMinuteRange)
append_when test start end remaining =
    if test
    then (local_minute_range start end >>= λ piece. ok (remaining ++ piece ∷ []))
    else ok remaining

-- The body of the inner loop of `_subtract_ranges`: what is left of one source.
unfoldable pub cut : LocalMinuteRange → LocalMinuteRange → Result (List LocalMinuteRange)
unfolding local_minute_range overlaps append_when
cut exclusion source = if not (overlaps source exclusion) then ok (source ∷ []) else do
  left ←
      append_when (ltb source.start exclusion.start) source.start (min source.end exclusion.start)
        []
  append_when (ltb exclusion.end source.end) (max source.start exclusion.end) source.end left

-- The inner loop: one exclusion taken from every source.
unfoldable pub cut_all : LocalMinuteRange → List LocalMinuteRange → Result (List LocalMinuteRange)
cut_all exclusion [] = ok []
cut_all exclusion (source ∷ result) = do
  pieces ← cut exclusion source
  rest ← cut_all exclusion result
  ok (pieces ++ rest)

-- The outer loop, over the sorted exclusions.
unfoldable pub subtract_from :
    List LocalMinuteRange → List LocalMinuteRange → Result (List LocalMinuteRange)
subtract_from result [] = ok result
subtract_from result (exclusion ∷ exclusions) = do
  remaining ← cut_all exclusion result
  subtract_from remaining exclusions

unfoldable pub subtract_ranges :
    List LocalMinuteRange → List LocalMinuteRange → Result (List LocalMinuteRange)
unfolding subtract_from
subtract_ranges sources exclusions =
    subtract_from (sorted range_lt sources) (sorted range_lt exclusions)

-- `for previous, current in pairwise(ordered)`
unfoldable pub ensure_neighbours : List LocalMinuteRange → Result Unit
unfolding overlaps
ensure_neighbours [] = ok tt
ensure_neighbours (previous ∷ []) = ok tt
ensure_neighbours (previous ∷ current ∷ rest) =
    raise_if (overlaps previous current) window_validation >> ensure_neighbours (current ∷ rest)

unfoldable pub ensure_ranges_do_not_overlap : List LocalMinuteRange → Result Unit
unfolding ensure_neighbours
ensure_ranges_do_not_overlap intervals = ensure_neighbours (sorted range_lt intervals)
