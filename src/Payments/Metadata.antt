-- ===== src/Payments/Metadata.antt =====
-- app/domain/payments.py, `validate_safe_metadata`: a small flat mapping without likely personal
-- data. A dict is the list of its items in insertion order.
use lanrouge_nails_bot.Base.{
  ℕ, ◌+◌, Bool, true, false, not, ◌&&◌, ◌||◌, List, [], ◌∷◌, ◌++◌, any, length, ltb, leb, ◌==◌,
  if◌then◌else◌, Option, none, some,
}
use lanrouge_nails_bot.Errors.{Result, ok, err, value_error, ◌>>=◌, ◌>>◌, raise_if}
use lanrouge_nails_bot.Text.{Text, strip, is_empty, same_text, has_prefix}
pub mod Safe

abbrev pub Mapping : Type 0
Mapping = List (Text × Text)

-- `values.get(key)`
unfoldable pub get : Mapping → Text → Option Text
get [] key = none
get ((k, v) ∷ items) key = if same_text k key then some v else get items key

-- `values[key] = value`, which keeps the place of a key that is there
unfoldable pub put : Mapping → Text → Text → Mapping
put [] key value = (key, value) ∷ []
put ((k, v) ∷ items) key value =
    if same_text k key then (k, value) ∷ items else (k, v) ∷ put items key value

-- `str.casefold` of one code point, exact where the result is ASCII; any other code point is kept,
-- and no key with one is accepted in either case.
unfoldable pub casefold_letter : ℕ → Text
casefold_letter c =
    if leb b'A' c && leb c b'Z'
    then (c + 32) ∷ []
    else if c == 0x17f
    then b's' ∷ []
    else if c == 0x212a
    then b'k' ∷ []
    else if c == 0xdf || c == 0x1e9e
    then b's' ∷ b's' ∷ []
    else if c == 0xfb00
    then b'f' ∷ b'f' ∷ []
    else if c == 0xfb01
    then b'f' ∷ b'i' ∷ []
    else if c == 0xfb02
    then b'f' ∷ b'l' ∷ []
    else if c == 0xfb03
    then b'f' ∷ b'f' ∷ b'i' ∷ []
    else if c == 0xfb04
    then b'f' ∷ b'f' ∷ b'l' ∷ []
    else if c == 0xfb05 || c == 0xfb06
    then b's' ∷ b't' ∷ []
    else c ∷ []

unfoldable pub casefold : Text → Text
unfolding casefold_letter
casefold [] = []
casefold (c ∷ s) = casefold_letter c ++ casefold s

abbrev pub is_lower : ℕ → Bool
is_lower c = leb b'a' c && leb c b'z'

abbrev pub is_key_character : ℕ → Bool
is_key_character c = is_lower c || (leb b'0' c && leb c b'9') || c == b'_'

-- `^[a-z][a-z0-9_]{0,63}$`
unfoldable pub is_metadata_key : Text → Bool
is_metadata_key [] = false
is_metadata_key (c ∷ s) =
    is_lower c && not (any (λ d. not (is_key_character d)) s) && leb (length s) 63

abbrev pub forbidden_metadata_fragments : List Text
forbidden_metadata_fragments =
    (b'a' ∷ b'u' ∷ b't' ∷ b'h' ∷ b'o' ∷ b'r' ∷ b'i' ∷ b'z' ∷ b'a' ∷ b't' ∷ b'i' ∷ b'o' ∷ b'n' ∷ [])
    ∷ (b'c' ∷ b'a' ∷ b'r' ∷ b'd' ∷ [])
    ∷ (b'c' ∷ b'o' ∷ b'm' ∷ b'm' ∷ b'e' ∷ b'n' ∷ b't' ∷ [])
    ∷ (b'c' ∷ b'o' ∷ b'o' ∷ b'k' ∷ b'i' ∷ b'e' ∷ [])
    ∷ (b'c' ∷ b'v' ∷ b'v' ∷ [])
    ∷ (b'e' ∷ b'm' ∷ b'a' ∷ b'i' ∷ b'l' ∷ [])
    ∷ (b'n' ∷ b'a' ∷ b'm' ∷ b'e' ∷ [])
    ∷ (b'p' ∷ b'a' ∷ b's' ∷ b's' ∷ b'w' ∷ b'o' ∷ b'r' ∷ b'd' ∷ [])
    ∷ (b'p' ∷ b'a' ∷ b'y' ∷ b'l' ∷ b'o' ∷ b'a' ∷ b'd' ∷ [])
    ∷ (b'p' ∷ b'h' ∷ b'o' ∷ b'n' ∷ b'e' ∷ [])
    ∷ (b's' ∷ b'e' ∷ b'c' ∷ b'r' ∷ b'e' ∷ b't' ∷ [])
    ∷ (b't' ∷ b'o' ∷ b'k' ∷ b'e' ∷ b'n' ∷ [])
    ∷ []

-- `fragment in text`
unfoldable pub occurs_in : Text → Text → Bool
occurs_in fragment [] = is_empty fragment
occurs_in fragment (c ∷ s) = has_prefix fragment (c ∷ s) || occurs_in fragment s

unfoldable pub is_forbidden : Text → Bool
unfolding occurs_in
is_forbidden key = any (λ fragment. occurs_in fragment key) forbidden_metadata_fragments

-- One turn of the loop: the item to store.
unfoldable pub normalized_item : Text → Text → Result (Text × Text)
normalized_item key value =
    let normalized_key = casefold (strip key) in
    let normalized_value = strip value in
    raise_if (not (is_metadata_key normalized_key)) value_error
    >> raise_if (is_forbidden normalized_key) value_error
    >> raise_if (is_empty normalized_value || ltb 256 (length normalized_value)) value_error
    >> ok (normalized_key, normalized_value)

unfoldable pub normalize_items : Mapping → Mapping → Result Mapping
unfolding normalized_item put
normalize_items normalized [] = ok normalized
normalize_items normalized ((key, value) ∷ items) =
    normalized_item key value >>= λ (k, v). normalize_items (put normalized k v) items

unfoldable pub validate_safe_metadata : Mapping → Result Mapping
unfolding normalize_items
validate_safe_metadata values =
    raise_if (ltb 16 (length values)) value_error >> normalize_items [] values
