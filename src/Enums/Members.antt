-- ===== src/Enums/Members.antt =====
-- Python's `StrEnum`: membership tests and identity of members, with their laws.
use lanrouge_nails_bot.Base.{
  ℕ, ◌≡◌, refl, sym, ap, Bool, true, false, some, List, [], ◌∷◌, arith, get_elem?, ◌==◌, ==→eq,
  eq→==, ◌||◌, ◌∙◌,
}

-- A finite enum: a member has a number, and a number names at most one member.
pub record Enum (A : Type 0) : Type 0 where
  pub index : A → ℕ
  pub members : List A
  pub index_sound : (a : A) → get_elem? members (index a) ≡ some a

-- Python's `is` between members of one enum.
infix 50 ◌is◌
abbrev pub ◌is◌ : {A : Type 0} ⦃e : Enum A⦄ → A → A → Bool
◌is◌ ⦃e⦄ a b = e.index a == e.index b

-- Python's `in` on a set of members.
abbrev pub contains : {A : Type 0} ⦃e : Enum A⦄ → A → List A → Bool
contains a [] = false
contains a (b ∷ bs) = a is b || contains a bs

some-eq : {A : Type 0} {a b : A} → some a ≡ some b → a ≡ b
some-eq h = ground arith

module _ {A : Type 0} ⦃e : Enum A⦄ where
  pub is→eq : (a b : A) → a is b ≡ true → a ≡ b
  is→eq a b h = some-eq (
      sym (e.index_sound a)
      ∙ ap (get_elem? e.members) (==→eq (e.index a) (e.index b) h)
      ∙ e.index_sound b)

  pub is_refl : (a : A) → a is a ≡ true
  is_refl a = eq→== (e.index a) (e.index a) refl
