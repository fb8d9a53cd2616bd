-- ===== src/Payments/Metadata/Safe.antt =====
-- app/domain/payments.py, `validate_safe_metadata`: what an accepted mapping holds, said without the
-- tests of the code.
use lanrouge_nails_bot.Base.{
  refl, leb, ◌+◌, ℕ, suc, ◌≡◌, ◌≤◌, ◌⊎◌, true, false, not, ◌&&◌, inl, inr, Bool-cases, List, [],
  ◌∷◌, ◌++◌, any, arith, length, All,
}
use lanrouge_nails_bot.Errors.{ok, >>=-eq-ok}
use lanrouge_nails_bot.Text.{Text, has_prefix}
use lanrouge_nails_bot.Payments.Metadata.{
  same_text, is_empty, Mapping, put, is_key_character, is_metadata_key, occurs_in, is_forbidden,
  normalized_item, normalize_items, validate_safe_metadata,
}

-- A code point between `a` and `z`.
abbrev IsLower : ℕ → Type 0
IsLower c = (97 ≤ c) × (c ≤ 122)

-- One of `a` to `z`, one of `0` to `9`, or the underscore.
abbrev IsKeyCharacter : ℕ → Type 0
IsKeyCharacter c = IsLower c ⊎ ((48 ≤ c) × (c ≤ 57)) ⊎ (c ≡ 95)

abbrev IsKey : Text → Type 0
IsKey [] = ⊥
IsKey (c ∷ s) = IsLower c × All IsKeyCharacter s × (length (c ∷ s) ≤ 64)

abbrev IsInside : (fragment key : Text) → Type 0
IsInside fragment key = (before : Text) × (after : Text) × (key ≡ before ++ (fragment ++ after))

abbrev private_words : List Text
private_words =
    (b'a' ∷ b'u' ∷ b't' ∷ b'h' ∷ b'o' ∷ b'r' ∷ b'i' ∷ b'z' ∷ b'a' ∷ b't' ∷ b'i' ∷ b'o' ∷ b'n' ∷ [])
    ∷ (b'c' ∷ b'a' ∷ b'r' ∷ b'd' ∷ [])
    ∷ (b'c' ∷ b'o' ∷ b'm' ∷ b'm' ∷ b'e' ∷ b'n' ∷ b't' ∷ [])
    ∷ (b'c' ∷ b'o' ∷ b'o' ∷ b'k' ∷ b'i' ∷ b'e' ∷ [])
    ∷ (b'c' ∷ b'v' ∷ b'v' ∷ [])
    ∷ (b'e' ∷ b'm' ∷ b'a' ∷ b'i' ∷ b'l' ∷ [])
    ∷ (b'n' ∷ b'a' ∷ b'm' ∷ b'e' ∷ [])
    ∷ (b'p' ∷ b'a' ∷ b's' ∷ b's' ∷ b'w' ∷ b'o' ∷ b'r' ∷ b'd' ∷ [])
    ∷ (b'p' ∷ b'a' ∷ b'y' ∷ b'l' ∷ b'o' ∷ b'a' ∷ b'd' ∷ [])
    ∷ (b'p' ∷ b'h' ∷ b'o' ∷ b'n' ∷ b'e' ∷ [])
    ∷ (b's' ∷ b'e' ∷ b'c' ∷ b'r' ∷ b'e' ∷ b't' ∷ [])
    ∷ (b't' ∷ b'o' ∷ b'k' ∷ b'e' ∷ b'n' ∷ [])
    ∷ []

-- An item that may be stored.
unfoldable pub IsSafe : Text × Text → Type 0
IsSafe (key, value) =
    IsKey key
    × All (λ word. ¬ IsInside word key) private_words
    × (1 ≤ length value)
    × (length value ≤ 256)

has_prefix-append : (fragment after : Text) → has_prefix fragment (fragment ++ after) ≡ true
unfolding has_prefix
has_prefix-append [] after = refl
has_prefix-append (c ∷ fragment) after = ground (arith, has_prefix-append fragment after)

occurs_in-append :
    (fragment before after : Text) → occurs_in fragment (before ++ (fragment ++ after)) ≡ true
unfolding occurs_in
occurs_in-append [] [] [] = refl
occurs_in-append [] [] (c ∷ after) = ground (arith, has_prefix-append [] (c ∷ after))
occurs_in-append (c ∷ fragment) [] after = ground (arith, has_prefix-append (c ∷ fragment) after)
occurs_in-append fragment (c ∷ before) after =
    ground (arith, occurs_in-append fragment before after)

occurs_in-IsInside :
    (fragment key : Text) → occurs_in fragment key ≡ false → ¬ IsInside fragment key
unfolding IsInside
occurs_in-IsInside fragment key h (before, after, same) =
    ground (arith, same, occurs_in-append fragment before after)

All-words :
    (key : Text) (words : List Text)
    → any (λ fragment. occurs_in fragment key) words ≡ false
    → All (λ word. ¬ IsInside word key) words
All-words key [] h = tt
All-words key (word ∷ words) h =
    (occurs_in-IsInside word key (ground arith), All-words key words (ground arith))

is_forbidden-IsInside :
    (key : Text) → is_forbidden key ≡ false → All (λ word. ¬ IsInside word key) private_words
unfolding is_forbidden
is_forbidden-IsInside key h = All-words key private_words h

key_character : (c : ℕ) → is_key_character c ≡ true → IsKeyCharacter c
key_character c h = elim (Bool-cases (leb 97 c && leb c 122)) [
  | inl lower ↦ inl (ground arith, ground arith)
  | inr other ↦ elim (Bool-cases (leb 48 c && leb c 57)) [
    | inl digit ↦ inr (inl (ground arith, ground arith))
    | inr symbol ↦ inr (inr (ground arith))
  ]
]

key_characters : (s : Text) → any (λ d. not (is_key_character d)) s ≡ false → All IsKeyCharacter s
key_characters [] h = tt
key_characters (c ∷ s) h = (key_character c (ground arith), key_characters s (ground arith))

is_metadata_key-IsKey : (key : Text) → is_metadata_key key ≡ true → IsKey key
unfolding is_metadata_key
is_metadata_key-IsKey [] h = ground arith
is_metadata_key-IsKey (c ∷ s) h = (ground arith, key_characters s (ground arith), ground arith)

value_length : (value : Text) → is_empty value ≡ false → 1 ≤ length value
value_length [] h = ground arith
value_length (c ∷ s) h = ground arith

normalized_item-IsSafe :
    (key value : Text) (item : Text × Text) → normalized_item key value ≡ ok item → IsSafe item
unfolding normalized_item IsSafe
normalized_item-IsSafe key value (k, v) h = (
  is_metadata_key-IsKey k (ground arith),
  is_forbidden-IsInside k (ground arith),
  value_length v (ground arith),
  ground arith,
)

put-IsSafe :
    (values : Mapping) (key value : Text)
    → All IsSafe values
    → IsSafe (key, value)
    → All IsSafe (put values key value)
unfolding put IsSafe
put-IsSafe [] key value h safe = (safe, h)
put-IsSafe ((k, v) ∷ values) key value (kept, h) safe = elim (Bool-cases (same_text k key)) [
  | inl same ↦ rw same ((kept.0, kept.1, safe.2, safe.3), h)
  | inr other ↦ rw other (kept, put-IsSafe values key value h safe)
]

length-put :
    (values : Mapping) (key value : Text) → length (put values key value) ≤ suc (length values)
unfolding put
length-put [] key value = ground arith
length-put ((k, v) ∷ values) key value = ground (arith, length-put values key value)

normalize_items-IsSafe :
    (items normalized result : Mapping)
    → All IsSafe normalized
    → normalize_items normalized items ≡ ok result
    → All IsSafe result × (length result ≤ length normalized + length items)
unfolding normalize_items
normalize_items-IsSafe [] normalized result safe h = ground arith
normalize_items-IsSafe ((key, value) ∷ items) normalized result safe h =
    let ((k, v), e, h') = >>=-eq-ok (normalized_item key value) _ h in
    let (kept, short) =
      normalize_items-IsSafe items (put normalized k v) result
        (put-IsSafe normalized k v safe (normalized_item-IsSafe key value (k, v) e)) h' in
    (kept, omega (arith, short, length-put normalized k v))

-- A mapping that was accepted has at most 16 items. Every key begins with a letter from `a` to `z`,
-- is at most 64 characters long, has such letters, the digits `0` to `9` and underscores only, and
-- has none of twelve words inside it (authorization, card, comment, cookie, cvv, email, name,
-- password, payload, phone, secret, token); every value has 1 to 256 characters.
pub validate_safe_metadata-IsSafe :
    (values result : Mapping)
    → validate_safe_metadata values ≡ ok result
    → All IsSafe result × (length result ≤ 16)
unfolding validate_safe_metadata
validate_safe_metadata-IsSafe values result h =
    let (safe, short) = normalize_items-IsSafe values [] result tt (ground arith) in
    (safe, ground (arith, short))
