-- ===== src/Projection/Groups.antt =====
-- The dictionaries of lists by which app/domain/schedule_projection.py groups intervals before it
-- checks each group.
pub mod Checks
use lanrouge_nails_bot.Base.{
  ℕ, ◌≡◌, ◌↔◌, refl, Bool, true, false, ◌&&◌, List, [], ◌∷◌, ◌++◌, ◌==◌, ==→eq, eq→==, arith, All,
  AllPairs, if◌then◌else◌, Bool-cases,
}
use lanrouge_nails_bot.Enums.{Enum, ◌is◌, is→eq, is_refl}
use lanrouge_nails_bot.Errors.{Result, ok, ◌>>=◌, ◌>>◌}
use lanrouge_nails_bot.Projection.Ranges.{LocalMinuteRange, ensure_ranges_do_not_overlap}

-- Keys of a dictionary, compared by `==`.
pub record Key (K : Type 0) : Type 0 where
  pub same : K → K → Bool
  pub same_sound : (a b : K) → same a b ≡ true → a ≡ b
  pub same_refl : (a : K) → same a a ≡ true

module _ {A : Type 0} ⦃e : Enum A⦄ where
  pub pair_sound : (a b : ℕ × A) → (a.0 == b.0 && (a.1 is b.1)) ≡ true → a ≡ b
  pair_sound a b h = ground (arith, ==→eq a.0 b.0, is→eq a.1 b.1)

  pub pair_refl : (a : ℕ × A) → (a.0 == a.0 && (a.1 is a.1)) ≡ true
  pair_refl a = ground (arith, is_refl a.1)

  -- A number and a member of an enum.
  instance abbrev pub pair_key : Key (ℕ × A)
  pair_key = record {
    same = λ a b. a.0 == b.0 && (a.1 is b.1);
    same_sound = pair_sound;
    same_refl = pair_refl;
  }

abbrev pub Groups : Type 0 → Type 0
Groups K = List (K × List LocalMinuteRange)

module _ {K : Type 0} ⦃k : Key K⦄ where
  -- `grouped.setdefault(key, []).append(interval)`
  abbrev pub setdefault_append : K → LocalMinuteRange → Groups K → Groups K
  setdefault_append key interval [] = (key, interval ∷ []) ∷ []
  setdefault_append key interval ((j, rs) ∷ grouped) =
      if k.same j key
      then (j, rs ++ interval ∷ []) ∷ grouped
      else (j, rs) ∷ setdefault_append key interval grouped

-- `for intervals in grouped.values()`
unfoldable pub ensure_groups : {K : Type 0} → Groups K → Result Unit
ensure_groups [] = ok tt
ensure_groups ((_, rs) ∷ grouped) = ensure_ranges_do_not_overlap rs >> ensure_groups grouped
