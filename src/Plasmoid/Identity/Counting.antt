-- ===== src/Plasmoid/Identity/Counting.antt =====
-- components/plasmoid/src/SmartCardHandler.cpp: how often rows have an identity.
use libre_kde.Base.{
  ℕ, ◌+◌, ◌-◌, ◌≤◌, true, text_eq_iff, List, [], ◌∷◌, ◌++◌, ◌≡◌, ◌↔◌, refl, if◌then◌else◌, ltb,
  arith,
}
use libre_kde.Plasmoid.Identity.{
  Row, same_identity, holds, insert, remove, summarised, details_from,
}

-- How often rows have the identity of a row.
abbrev pub count : Row → List Row → ℕ
count i [] = 0
count i (r ∷ rows) = (if same_identity r i then 1 else 0) + count i rows

pub count-append : (i : Row) (xs ys : List Row) → count i (xs ++ ys) ≡ count i xs + count i ys
count-append i [] ys = omega arith
count-append i (x ∷ xs) ys = omega (arith, count-append i xs ys)

pub same_identity_iff :
    (a b : Row)
    → (same_identity a b ≡ true) ↔ ((a.group_key ≡ b.group_key) × (a.field_key ≡ b.field_key))
unfolding same_identity
same_identity_iff a b =
    ground (arith, text_eq_iff a.group_key b.group_key, text_eq_iff a.field_key b.field_key)

-- Rows of one identity are counted alike.
count-same : (i j : Row) (rows : List Row) → same_identity i j ≡ true → count i rows ≡ count j rows
count-same i j [] h = refl
count-same i j (r ∷ rows) h = ground (
  arith,
  same_identity_iff i j,
  same_identity_iff r i,
  same_identity_iff r j,
  count-same i j rows h,
)

pub holds-count : (set : List Row) (i : Row) → holds set i ≡ ltb 0 (count i set)
unfolding holds
holds-count [] i = refl
holds-count (s ∷ set) i = ground (arith, holds-count set i)

count-remove :
    (i r : Row) (set : List Row)
    → count i (remove r set)
      ≡ count i set - (if same_identity r i then (if holds set r then 1 else 0) else 0)
unfolding remove holds
count-remove i r [] = ground arith
count-remove i r (s ∷ set) = ground (
  arith,
  same_identity_iff s r,
  same_identity_iff s i,
  same_identity_iff r i,
  holds-count set i,
  holds-count set r,
  count-same r i set,
  count-remove i r set,
)

-- The details have an identity as often as the fields do beyond the set.
pub count-details_from :
    (i : Row) (set fields : List Row)
    → count i (details_from set fields) ≡ count i fields - count i set
unfolding details_from
count-details_from i set [] = ground arith
count-details_from i set (r ∷ fields) = ground (
  arith,
  holds-count set r,
  count-same r i set,
  count-remove i r set,
  count-details_from i (remove r set) fields,
  count-details_from i set fields,
)

pub count-insert :
    (i r : Row) (set : List Row)
    → count i (insert r set)
      ≡ count i set + (if holds set r then 0 else (if same_identity r i then 1 else 0))
unfolding insert
count-insert i r set = ground arith

-- The set has an identity once, where the rows or the set before them have it.
pub count-summarised :
    (i : Row) (summary set : List Row)
    → count i set ≤ 1
    → count i (summarised summary set) ≡ (if ltb 0 (count i summary + count i set) then 1 else 0)
unfolding summarised
count-summarised i [] set h = ground arith
count-summarised i (r ∷ summary) set h = ground (
  arith,
  holds-count set r,
  count-same r i set,
  count-insert i r set,
  count-summarised i summary (insert r set),
)
