-- ===== src/Base/Groups.antt =====
-- Entries collected by group: a table of the entries of each group, and the groups in order of first
-- appearance.
use mathlib.Core.List.{append-nil, append_assoc}
use libre_kde.Base.Tests.{if◌then◌else◌}
use libre_kde.Base.Texts.{Text, text_eq, text_eq_iff}
use mathlib.Core.Path.{◌≡◌, sym}
use mathlib.Core.Bool.{Bool, true, false, ◌||◌}
use mathlib.Core.Option.{Option, none, some}
use mathlib.Core.List.{List, [], ◌∷◌, ◌++◌}
use native.Mathlib.Omega.{arith}

unfoldable pub contains : Text → List Text → Bool
contains t [] = false
contains t (x ∷ xs) = text_eq x t || contains t xs

abbrev pub is_some {ℓ} : {A : Type ℓ} → Option A → Bool
is_some none = false
is_some (some a) = true

module _ {A : Type 0} where
  -- The hash `rowsByGroup`: the rows of a group that it holds.
  unfoldable pub rows_of : Text → List (Text × List A) → Option (List A)
  rows_of group [] = none
  rows_of group ((g, rows) ∷ table) = if text_eq g group then some rows else rows_of group table

  -- `rowsByGroup[group] += row`, with the rows that it adds.
  unfoldable pub add_row : Text → List A → List (Text × List A) → List (Text × List A)
  add_row group row [] = (group, row) ∷ []
  add_row group row ((g, rows) ∷ table) =
      if text_eq g group then (g, rows ++ row) ∷ table else (g, rows) ∷ add_row group row table

  abbrev pub value_or : Option (List A) → List A → List A
  value_or none d = d
  value_or (some a) d = a

  rows_of-add_row :
      (g h : Text) (row : List A) (table : List (Text × List A))
      → rows_of h (add_row g row table)
        ≡ (if text_eq g h then some (value_or (rows_of h table) [] ++ row) else rows_of h table)
  unfolding rows_of add_row
  rows_of-add_row g h row [] = ground arith
  rows_of-add_row g h row ((a, rows) ∷ table) =
      ground
        (arith, text_eq_iff a g, text_eq_iff a h, text_eq_iff g h, rows_of-add_row g h row table)

pub contains-append :
    (t x : Text) (xs : List Text) → contains t (xs ++ x ∷ []) ≡ (contains t xs || text_eq x t)
unfolding contains
contains-append t x [] = ground arith
contains-append t x (y ∷ ys) = ground (arith, contains-append t x ys)

module _ {F A : Type 0} (group : F → Text) (row : F → List A) where
  -- The loop over the fields: the groups in order of first appearance, and the rows of each.
  unfoldable pub collect_rows :
      List F → List Text → List (Text × List A) → List Text × List (Text × List A)
  collect_rows [] group_order table = (group_order, table)
  collect_rows (f ∷ fields) group_order table =
      collect_rows fields
        (if is_some (rows_of (group f) table) then group_order else group_order ++ group f ∷ [])
        (add_row (group f) (row f) table)

  -- The groups of the fields in order of first appearance, without those seen before.
  unfoldable pub first_groups : List Text → List F → List Text
  unfolding contains
  first_groups seen [] = []
  first_groups seen (f ∷ fields) =
      let new = group f ∷ first_groups (seen ++ group f ∷ []) fields in
      let old = first_groups seen fields in if contains (group f) seen then old else new

  -- The rows of one group, in the order of the fields.
  unfoldable pub group_rows : Text → List F → List A
  group_rows g [] = []
  group_rows g (f ∷ fields) =
      let rest = group_rows g fields in if text_eq (group f) g then row f ++ rest else rest

  -- The hash knows the groups that stand in the order.
  abbrev Knows : List Text → List (Text × List A) → Type 0
  Knows order table = (g : Text) → is_some (rows_of g table) ≡ contains g order

  Knows-add_row :
      (f : F) (order : List Text) (table : List (Text × List A))
      → Knows order table
      → Knows
          (if is_some (rows_of (group f) table) then order else order ++ group f ∷ [])
          (add_row (group f) (row f) table)
  Knows-add_row f order table k g = ground (
    arith,
    k g,
    k (group f),
    rows_of-add_row (group f) g (row f) table,
    contains-append g (group f) order,
    text_eq_iff (group f) g,
  )

  pub collected_order :
      (fields : List F) (order : List Text) (table : List (Text × List A))
      → Knows order table
      → (collect_rows fields order table).0 ≡ order ++ first_groups order fields
  unfolding collect_rows first_groups
  collected_order [] order table k = sym (append-nil order)
  collected_order (f ∷ fields) order table k =
      let next =
        collected_order fields
          (if is_some (rows_of (group f) table) then order else order ++ group f ∷ [])
          (add_row (group f) (row f) table) (Knows-add_row f order table k) in
      ground (
        arith,
        next,
        k (group f),
        append_assoc order (group f ∷ []) (first_groups (order ++ group f ∷ []) fields),
      )

  pub collected_rows :
      (g : Text) (fields : List F) (order : List Text) (table : List (Text × List A))
      → value_or (rows_of g (collect_rows fields order table).1) []
        ≡ value_or (rows_of g table) [] ++ group_rows g fields
  unfolding collect_rows group_rows
  collected_rows g [] order table = sym (append-nil _)
  collected_rows g (f ∷ fields) order table =
      let next =
        collected_rows g fields
          (if is_some (rows_of (group f) table) then order else order ++ group f ∷ [])
          (add_row (group f) (row f) table) in
      ground (
        arith,
        next,
        rows_of-add_row (group f) g (row f) table,
        append_assoc (value_or (rows_of g table) []) (row f) (group_rows g fields),
      )
