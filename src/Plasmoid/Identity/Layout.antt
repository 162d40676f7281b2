-- ===== src/Plasmoid/Identity/Layout.antt =====
-- components/plasmoid/src/SmartCardHandler.cpp, `applyFieldOrder` and `applyGroupHeadings`: the order of
-- the rows of an identity, and the headings of its groups.
use libre_kde.Base.{
  ℕ, zero, suc, Bool, true, false, Text, is_empty, text_eq, List, [], ◌∷◌, ◌++◌, Option, none, some,
  if◌then◌else◌, leb, get_elem?,
}
use libre_kde.Base.Groups.{rows_of, value_or, collect_rows}
use libre_kde.Plasmoid.Identity.{Row}

-- The slots of a group: the places of its rows, from `i` on.
unfoldable pub slots_from : ℕ → Text → List Row → List ℕ
slots_from i group [] = []
slots_from i group (row ∷ rows) =
    let rest = slots_from (suc i) group rows in
    if text_eq row.group_key group then i ∷ rest else rest

unfoldable pub index_from : ℕ → Text → List Text → ℕ
index_from i key [] = i
index_from i key (k ∷ order) =
    let rest = index_from (suc i) key order in if text_eq k key then i else rest

-- The place of the row's key in the order, and its length for a key that it does not name.
unfoldable pub rank : List Text → Row → ℕ
unfolding index_from
rank order row = index_from 0 row.field_key order

-- `std::stable_sort`: a row goes before the first of the later ones whose rank is not lower.
unfoldable pub sorted_in : (Row → ℕ) → Row → List Row → List Row
sorted_in rank r [] = r ∷ []
sorted_in rank r (s ∷ rows) =
    let later = s ∷ sorted_in rank r rows in if leb (rank r) (rank s) then r ∷ s ∷ rows else later

unfoldable pub stable_sort : (Row → ℕ) → List Row → List Row
unfolding sorted_in
stable_sort rank [] = []
stable_sort rank (r ∷ rows) = sorted_in rank r (stable_sort rank rows)

abbrev if_there : Option Row → List Row → List Row
if_there none rows = rows
if_there (some row) rows = row ∷ rows

-- The rows at the slots.
unfoldable pub gather : List Row → List ℕ → List Row
gather details [] = []
gather details (slot ∷ slots) = if_there (get_elem? details slot) (gather details slots)

abbrev pub set : List Row → ℕ → Row → List Row
set [] i v = []
set (x ∷ xs) zero v = v ∷ xs
set (x ∷ xs) (suc i) v = x ∷ set xs i v

-- The rows back into the slots.
unfoldable pub put_back : List Row → List ℕ → List Row → List Row
put_back details [] rows = details
put_back details (slot ∷ slots) [] = details
put_back details (slot ∷ slots) (row ∷ rows) = put_back (set details slot row) slots rows

unfoldable pub arrange_group : List Text → List ℕ → List Row → List Row
unfolding gather put_back stable_sort rank
arrange_group order slots details =
    if is_empty order
    then details
    else put_back details slots (stable_sort (rank order) (gather details slots))

-- The loop over the hash of slots, in the order in which it is walked.
unfoldable pub arrange_groups : (Text → List Text) → List (Text × List ℕ) → List Row → List Row
unfolding arrange_group
arrange_groups field_order [] details = details
arrange_groups field_order ((group, slots) ∷ table) details =
    arrange_groups field_order table (arrange_group (field_order group) slots details)

-- `slotsByGroup`, with its groups in some order.
unfoldable pub slots_by_group : List Text → List Row → List (Text × List ℕ)
unfolding slots_from
slots_by_group [] details = []
slots_by_group (group ∷ walk) details =
    (group, slots_from 0 group details) ∷ slots_by_group walk details

-- `walk` is the order in which the hash gives its keys: the groups of the details, each once.
unfoldable pub apply_field_order : (Text → List Text) → List Text → List Row → List Row
unfolding arrange_groups slots_by_group
apply_field_order field_order walk details =
    arrange_groups field_order (slots_by_group walk details) details

abbrev pub group_of : Row → Text
group_of row = row.group_key

abbrev pub alone : Row → List Row
alone row = row ∷ []

unfoldable pub head_rows : Text → Bool → List Row → List Row
head_rows heading first [] = []
head_rows heading first (row ∷ rows) =
    record row { group_heading = some (if first then heading else []) }
    ∷ head_rows heading false rows

unfoldable pub head_groups : (Text → Text) → List Text → List (Text × List Row) → List Row
unfolding head_rows
head_groups heading [] table = []
head_groups heading (key ∷ groups) table =
    head_rows (heading key) true (value_or (rows_of key table) [])
    ++ head_groups heading groups table

unfoldable pub apply_group_headings : (Text → Text) → List Row → List Row
unfolding head_groups
apply_group_headings heading details =
    let (group_order, table) = collect_rows group_of alone details [] [] in
    head_groups heading group_order table
