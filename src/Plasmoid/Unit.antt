-- ===== src/Plasmoid/Unit.antt =====
-- components/plasmoid/src/SmartCardHandler.cpp: when two reader names are taken for one device.
use libre_kde.Base.{
  ℕ, zero, suc, ◌-◌, ◌+◌, Bool, true, false, not, ◌&&◌, ◌||◌, Text, is_empty, text_eq, text_eq_iff,
  List, [], ◌∷◌, ◌++◌, Option, none, some, if◌then◌else◌, ◌==◌, ltb, leb, length, take, drop, ◌≡◌,
  arith,
}
use mathlib.Core.List.{reverse}
use libre_kde.Kio.Tree.{split, skip_empty_parts}

-- Qt's classes of characters.
pub record Chars : Type 0 where
  pub is_space : ℕ → Bool
  pub is_digit : ℕ → Bool

or_this : Option ℕ → Option ℕ → Option ℕ
or_this none this = this
or_this (some later) this = some later

last_from : ℕ → ℕ → ℕ → Text → Option ℕ
unfolding or_this
last_from c limit i [] = none
last_from c limit i (x ∷ s) =
    or_this (last_from c limit (suc i) s) (if (x == c) && ltb i limit then some i else none)

-- `lastIndexOf`: the last place of the character before a limit.
unfoldable pub last_index_of : ℕ → ℕ → Text → Option ℕ
unfolding last_from
last_index_of c limit s = last_from c limit 0 s

-- The places of the last parenthesized group of a name.
group_from : Text → Option ℕ → Option (ℕ × ℕ)
group_from name none = none
group_from name (some close) = elim (last_index_of b'(' close name) [
  | none ↦ none
  | some open_at ↦ some (open_at, close)
]

-- A closing parenthesis at the first place closes nothing, and has no opening one before it.
unfoldable pub last_group : Text → Option (ℕ × ℕ)
unfolding group_from last_index_of
last_group name = group_from name (last_index_of b')' (length name) name)

skip_space : Chars → Text → Text
skip_space chars [] = []
skip_space chars (c ∷ s) = if chars.is_space c then skip_space chars s else c ∷ s

-- `trimmed`.
unfoldable pub trimmed : Chars → Text → Text
unfolding skip_space
trimmed chars s = reverse (skip_space chars (reverse (skip_space chars s)))

any_digit : Chars → Text → Bool
any_digit chars [] = false
any_digit chars (c ∷ s) = chars.is_digit c || any_digit chars s

qualified : Chars → Text → Text
unfolding any_digit
qualified chars key = if ltb (length key) 4 then [] else if any_digit chars key then key else []

group_key : Chars → Text → Option (ℕ × ℕ) → Text
unfolding qualified trimmed
group_key chars name none = []
group_key chars name (some (open_at, close)) =
    qualified chars (trimmed chars (take (close - open_at - 1) (drop (open_at + 1) name)))

-- `readerSerialKey`.
unfoldable pub reader_serial_key : Chars → Text → Text
unfolding group_key last_group
reader_serial_key chars name = group_key chars name (last_group name)

without_group : Text → Option (ℕ × ℕ) → Text
without_group name none = name
without_group name (some (open_at, close)) = take open_at name ++ drop (close + 1) name

is_hex : ℕ → Bool
is_hex c = (leb b'0' c && leb c b'9') || (leb b'A' c && leb c b'F') || (leb b'a' c && leb c b'f')

-- A slot index: two hexadecimal digits.
is_slot_index : Text → Bool
unfolding is_hex
is_slot_index (a ∷ b ∷ []) = is_hex a && is_hex b
is_slot_index _ = false

-- The tokens in reverse without as many slot indices at most.
strip_slots : ℕ → List Text → List Text
unfolding is_slot_index
strip_slots zero tokens = tokens
strip_slots (suc n) [] = []
strip_slots (suc n) (t ∷ tokens) =
    let rest = strip_slots n tokens in if is_slot_index t then rest else t ∷ tokens

joined : List Text → Text
joined [] = []
joined (t ∷ []) = t
joined (t ∷ u ∷ tokens) = t ++ b' ' ∷ joined (u ∷ tokens)

-- `readerBaseName`.
unfoldable pub reader_base_name : Text → Text
unfolding without_group strip_slots joined last_group split skip_empty_parts
reader_base_name name = joined (
    reverse (
      strip_slots 2
        (reverse (skip_empty_parts (split b' ' (without_group name (last_group name)))))))

-- `sameReaderUnit`.
unfoldable pub same_reader_unit : Chars → Text → Text → Bool
same_reader_unit chars a b =
    not (is_empty (reader_serial_key chars a))
    && text_eq (reader_serial_key chars a) (reader_serial_key chars b)
    && text_eq (reader_base_name a) (reader_base_name b)

-- One device: the test of two names is symmetric and transitive, and holds of a name and itself just
-- where the name carries a serial that qualifies.
pub same_reader_unit-IsUnit :
    (chars : Chars) (a b c : Text)
    → (same_reader_unit chars a b ≡ same_reader_unit chars b a)
      × (same_reader_unit chars a b ≡ true
          → same_reader_unit chars b c ≡ true
          → same_reader_unit chars a c ≡ true)
      × (same_reader_unit chars a a ≡ not (is_empty (reader_serial_key chars a)))
unfolding same_reader_unit
same_reader_unit-IsUnit chars a b c =
    let same_key = λ (x : Text) (y : Text).
      text_eq_iff (reader_serial_key chars x) (reader_serial_key chars y) in
    let same_base =
      λ (x : Text) (y : Text). text_eq_iff (reader_base_name x) (reader_base_name y) in
    ground (
      arith,
      same_key a b,
      same_key b a,
      same_key b c,
      same_key a c,
      same_key a a,
      same_base a b,
      same_base b a,
      same_base b c,
      same_base a c,
      same_base a a,
    )
