-- ===== src/Plasmoid/Identity/Once.antt =====
-- components/plasmoid/src/SmartCardHandler.cpp: every field of an identity is drawn once.
use libre_kde.Base.{
  ℕ, ◌+◌, ◌≤◌, Bool, true, false, Text, text_eq_iff, List, [], ◌∷◌, ◌≡◌, refl, ap, sym, ◌∙◌,
  if◌then◌else◌, arith,
}
use libre_kde.Base.Groups.{contains}
use libre_kde.Shared.IdentityRows.{
  IdentityLibrary, FieldGroup, Words, identity_rows, localized_group_label,
}
use libre_kde.Plasmoid.Unit.{Chars}
use libre_kde.Plasmoid.Identity.{
  Row, same_identity, curate_identity_summary, curate_identity_details,
}
use libre_kde.Plasmoid.Identity.Layout.{
  rank, sorted_in, stable_sort, head_rows, apply_field_order, apply_group_headings,
}
use libre_kde.Plasmoid.Identity.Counting.{count}
use libre_kde.Plasmoid.Identity.Split.{curate_identity-split}
use libre_kde.Plasmoid.Identity.Slots.{rows_in, settled}
use libre_kde.Plasmoid.Identity.Order.{is_once, rows_lem}
use libre_kde.Plasmoid.Identity.Headings.{head_rows-headed, apply_group_headings-sections}
use libre_kde.Plasmoid.Identity.Model.{flat_rows, rebuild_identity_model}

-- An identity is counted among the rows of its group.
count-rows_in : (i : Row) (rows : List Row) → count i (rows_in i.group_key rows) ≡ count i rows
unfolding same_identity
count-rows_in i [] = refl
count-rows_in i (r ∷ rows) =
    ground (arith, text_eq_iff r.group_key i.group_key, count-rows_in i rows)

count-sorted_in :
    (i : Row) (rank : Row → ℕ) (r : Row) (rows : List Row)
    → count i (sorted_in rank r rows) ≡ count i (r ∷ rows)
unfolding sorted_in
count-sorted_in i rank r [] = refl
count-sorted_in i rank r (s ∷ rows) = ground (arith, count-sorted_in i rank r rows)

count-stable_sort :
    (i : Row) (rank : Row → ℕ) (rows : List Row) → count i (stable_sort rank rows) ≡ count i rows
unfolding stable_sort
count-stable_sort i rank [] = refl
count-stable_sort i rank (r ∷ rows) =
    omega (arith, count-sorted_in i rank r (stable_sort rank rows), count-stable_sort i rank rows)

count-head_rows :
    (i : Row) (heading : Text) (first : Bool) (rows : List Row)
    → count i (head_rows heading first rows) ≡ count i rows
unfolding head_rows same_identity
count-head_rows i heading first [] = refl
count-head_rows i heading first (r ∷ rows) = omega (arith, count-head_rows i heading false rows)

count-settled :
    (i : Row) (order : List Text) (walked : Bool) (rows : List Row)
    → count i (if walked then settled i.group_key order rows else rows_in i.group_key rows)
      ≡ count i rows
count-settled i [] true rows = count-rows_in i rows
count-settled i (k ∷ order) true rows =
    count-stable_sort i (rank (k ∷ order)) (rows_in i.group_key rows) ∙ count-rows_in i rows
count-settled i order false rows = count-rows_in i rows

-- The order of the fields loses no row and doubles none.
count-apply_field_order :
    (i : Row) (field_order : Text → List Text) (walk : List Text) (rows : List Row)
    → is_once walk ≡ true
    → count i (apply_field_order field_order walk rows) ≡ count i rows
count-apply_field_order i field_order walk rows once =
    sym (count-rows_in i (apply_field_order field_order walk rows))
    ∙ ap (count i) (rows_lem field_order walk rows i.group_key once)
    ∙ count-settled i (field_order i.group_key) (contains i.group_key walk) rows

count-apply_group_headings :
    (i : Row) (heading : Text → Text) (rows : List Row)
    → count i (apply_group_headings heading rows) ≡ count i rows
count-apply_group_headings i heading rows =
    sym (count-rows_in i (apply_group_headings heading rows))
    ∙ ap (count i) (apply_group_headings-sections heading rows i.group_key).1
    ∙ ap (count i) (sym (head_rows-headed (heading i.group_key) (rows_in i.group_key rows)))
    ∙ count-head_rows i (heading i.group_key) true (rows_in i.group_key rows)
    ∙ count-rows_in i rows

module _ {Field : Type 0} (library : IdentityLibrary Field) (words : Words) (chars : Chars)
    (walk : List Row → List Text) (once : (rows : List Row) → is_once (walk rows) ≡ true) where
  -- Where the hash of slots gives no group twice: of the model that is built of a read, the summary and
  -- the details together have each identity exactly as often as the fields, and the summary has none
  -- twice.
  pub rebuild_identity_model-once :
      (groups : List (FieldGroup Field)) (i : Row)
      → (count i (rebuild_identity_model library words chars walk groups).fields
          ≡ count i (rebuild_identity_model library words chars walk groups).summary
            + count i (rebuild_identity_model library words chars walk groups).details)
        × (count i (rebuild_identity_model library words chars walk groups).summary ≤ 1)
  unfolding rebuild_identity_model
  rebuild_identity_model-once groups i =
      let flat = flat_rows library words (identity_rows library words groups) in
      let rest = curate_identity_details flat (curate_identity_summary chars flat) in
      let (split, few) = curate_identity-split chars flat i in
      let order = library.field_order_for_group in
      (
        omega (
          arith,
          split,
          count-apply_group_headings i (localized_group_label words)
              (apply_field_order order (walk rest) rest),
          count-apply_field_order i order (walk rest) rest (once rest),
        ),
        few,
      )
