-- ===== src/Plasmoid/Identity/Slots.antt =====
-- components/plasmoid/src/SmartCardHandler.cpp, `applyFieldOrder`: the slots of a group hold its rows, and
-- rows that are put back there stand in their places.
use mathlib.Core.List.{append_assoc}
use libre_kde.Base.{
  ℕ, suc, true, false, Text, text_eq, text_eq_iff, List, [], ◌∷◌, ◌++◌, some, ◌≡◌, refl, ap, sym,
  ◌∙◌, if◌then◌else◌, arith, All, length, get_elem?, map, is_empty, Bool-cases, inl, inr,
}
use libre_kde.Plasmoid.Identity.{Row}
use libre_kde.Plasmoid.Identity.Layout.{
  slots_from, gather, set, put_back, arrange_group, rank, stable_sort, group_of,
}
use libre_kde.Plasmoid.Identity.Sorting.{length-stable_sort, stable_sort-All}

-- The rows of a group, as they stand.
abbrev pub rows_in : Text → List Row → List Row
rows_in g [] = []
rows_in g (r ∷ rows) = if text_eq r.group_key g then r ∷ rows_in g rows else rows_in g rows

-- The rows with those of a group replaced, one by one.
unfoldable pub refill : Text → List Row → List Row → List Row
refill g [] rows = rows
refill g (x ∷ xs) [] = []
refill g (x ∷ xs) (r ∷ rows) =
    let put = x ∷ refill g xs rows in
    let left = r ∷ refill g (x ∷ xs) rows in if text_eq r.group_key g then put else left

get_elem?-append :
    (pre rows : List Row) (r : Row) → get_elem? (pre ++ r ∷ rows) (length pre) ≡ some r
get_elem?-append [] rows r = refl
get_elem?-append (p ∷ pre) rows r = get_elem?-append pre rows r

set-append :
    (pre rows : List Row) (r x : Row)
    → set (pre ++ r ∷ rows) (length pre) x ≡ (pre ++ x ∷ []) ++ rows
set-append [] rows r x = refl
set-append (p ∷ pre) rows r x = ap (◌∷◌ p) (set-append pre rows r x)

length-snoc : (pre : List Row) (r : Row) → length (pre ++ r ∷ []) ≡ suc (length pre)
length-snoc [] r = refl
length-snoc (p ∷ pre) r = ap suc (length-snoc pre r)

-- A list split one row further on.
module _ (pre rows : List Row) (r : Row) where
  pub moved_on : (pre ++ r ∷ []) ++ rows ≡ pre ++ r ∷ rows
  moved_on = append_assoc pre (r ∷ []) rows

gather-slots_from :
    (g : Text) (pre rows : List Row)
    → gather (pre ++ rows) (slots_from (length pre) g rows) ≡ rows_in g rows
unfolding gather slots_from
gather-slots_from g pre [] = refl
gather-slots_from g pre (r ∷ rows) =
    let ih : gather (pre ++ r ∷ rows) (slots_from (suc (length pre)) g rows) ≡ rows_in g rows =
      rw (moved_on pre rows r, length-snoc pre r) at (gather-slots_from g (pre ++ r ∷ []) rows) in
    ground (arith, ih, get_elem?-append pre rows r)

put_back-slots_from :
    (g : Text) (pre rows xs : List Row)
    → put_back (pre ++ rows) (slots_from (length pre) g rows) xs ≡ pre ++ refill g xs rows
unfolding put_back slots_from refill
put_back-slots_from g pre [] [] = refl
put_back-slots_from g pre [] (x ∷ xs) = refl
put_back-slots_from g pre (r ∷ rows) [] = elim (Bool-cases (text_eq r.group_key g)) [
  | inl here ↦ rw here refl
  | inr other ↦ rw other (
      rw (moved_on pre rows r, length-snoc pre r) at
        (put_back-slots_from g (pre ++ r ∷ []) rows []))
]
put_back-slots_from g pre (r ∷ rows) (x ∷ xs) = elim (Bool-cases (text_eq r.group_key g)) [
  | inl here ↦ rw here (
      ap (λ (rows' : List Row). put_back rows' (slots_from (suc (length pre)) g rows) xs)
        (set-append pre rows r x)
      ∙ rw (length-snoc pre x) at (put_back-slots_from g (pre ++ x ∷ []) rows xs)
      ∙ moved_on pre (refill g xs rows) x)
  | inr other ↦ rw other (
      rw (moved_on pre rows r, length-snoc pre r) at
        (put_back-slots_from g (pre ++ r ∷ []) rows (x ∷ xs))
      ∙ moved_on pre (refill g (x ∷ xs) rows) r)
]

length-zero : (xs : List Row) → length xs ≡ 0 → xs ≡ []
length-zero [] e = refl
length-zero (x ∷ xs) e = absurd (omega arith)

-- What the slots make of the rows depends only on the groups of the places.
slots_from-keys :
    (i : ℕ) (g : Text) (xs ys : List Row)
    → map group_of xs ≡ map group_of ys
    → slots_from i g xs ≡ slots_from i g ys
unfolding slots_from
slots_from-keys i g [] [] e = refl
slots_from-keys i g [] (y ∷ ys) e = absurd (cc)
slots_from-keys i g (x ∷ xs) [] e = absurd (cc)
slots_from-keys i g (x ∷ xs) (y ∷ ys) e = ground (arith, slots_from-keys (suc i) g xs ys)

module _ (g : Text) where
  abbrev pub IsIn : Row → Type 0
  IsIn r = text_eq r.group_key g ≡ true

  pub rows_in-IsIn : (rows : List Row) → All IsIn (rows_in g rows)
  rows_in-IsIn [] = tt
  rows_in-IsIn (r ∷ rows) = elim (Bool-cases (text_eq r.group_key g)) [
    | inl here ↦ rw here (here, rows_in-IsIn rows)
    | inr other ↦ rw other (rows_in-IsIn rows)
  ]

  pub refill-keys :
      (xs rows : List Row) → All IsIn xs → map group_of (refill g xs rows) ≡ map group_of rows
  unfolding refill
  refill-keys [] rows h = refl
  refill-keys (x ∷ xs) [] h = refl
  refill-keys (x ∷ xs) (r ∷ rows) h = ground (
    arith,
    text_eq_iff r.group_key g,
    text_eq_iff x.group_key g,
    refill-keys xs rows h.1,
    refill-keys (x ∷ xs) rows h,
  )

  pub rows_in-refill :
      (xs rows : List Row)
      → All IsIn xs
      → length xs ≡ length (rows_in g rows)
      → rows_in g (refill g xs rows) ≡ xs
  unfolding refill
  rows_in-refill [] rows h e = length-zero (rows_in g rows) (sym e)
  rows_in-refill (x ∷ xs) [] h e = absurd (omega arith)
  rows_in-refill (x ∷ xs) (r ∷ rows) h e =
      ground (arith, rows_in-refill xs rows h.1, rows_in-refill (x ∷ xs) rows h)

  pub rows_in-refill_other :
      (f : Text) (xs rows : List Row)
      → All IsIn xs
      → text_eq f g ≡ false
      → rows_in f (refill g xs rows) ≡ rows_in f rows
  unfolding refill
  rows_in-refill_other f [] rows h e = refl
  rows_in-refill_other f (x ∷ xs) [] h e = refl
  rows_in-refill_other f (x ∷ xs) (r ∷ rows) h e = ground (
    arith,
    text_eq_iff r.group_key g,
    text_eq_iff r.group_key f,
    text_eq_iff x.group_key g,
    text_eq_iff x.group_key f,
    text_eq_iff f g,
    rows_in-refill_other f xs rows h.1 e,
    rows_in-refill_other f (x ∷ xs) rows h e,
  )

  -- The rows of the group, in the order for it.
  abbrev pub settled : List Text → List Row → List Row
  settled order rows =
      if is_empty order then rows_in g rows else stable_sort (rank order) (rows_in g rows)

  settled-IsIn : (order : List Text) (rows : List Row) → All IsIn (settled order rows)
  settled-IsIn [] rows = rows_in-IsIn rows
  settled-IsIn (k ∷ order) rows =
      stable_sort-All (rank (k ∷ order)) IsIn (rows_in g rows) (rows_in-IsIn rows)

  length-settled :
      (order : List Text) (rows : List Row) → length (settled order rows) ≡ length (rows_in g rows)
  length-settled [] rows = refl
  length-settled (k ∷ order) rows = length-stable_sort (rank (k ∷ order)) (rows_in g rows)

  refill_past :
      (xs rows : List Row) (r : Row)
      → text_eq r.group_key g ≡ false
      → refill g xs (r ∷ rows) ≡ r ∷ refill g xs rows
  unfolding refill
  refill_past [] rows r other = refl
  refill_past (x ∷ xs) rows r other = rw other

  refill_here :
      (xs rows : List Row) (x r : Row)
      → text_eq r.group_key g ≡ true
      → refill g (x ∷ xs) (r ∷ rows) ≡ x ∷ refill g xs rows
  unfolding refill
  refill_here xs rows x r here = rw here refl

  refill_self : (rows : List Row) → refill g (rows_in g rows) rows ≡ rows
  refill_self [] = unfold refill in refl
  refill_self (r ∷ rows) = elim (Bool-cases (text_eq r.group_key g)) [
    | inl here ↦
        rw here (refill_here (rows_in g rows) rows r r here ∙ ap (◌∷◌ r) (refill_self rows))
    | inr other ↦
        rw other (refill_past (rows_in g rows) rows r other ∙ ap (◌∷◌ r) (refill_self rows))
  ]

  -- The group's rows are put in its places, in the order for it; `before` has the groups of the rows.
  pub arrange_group-refill :
      (order : List Text) (before rows : List Row)
      → map group_of before ≡ map group_of rows
      → arrange_group order (slots_from 0 g before) rows ≡ refill g (settled order rows) rows
  unfolding arrange_group
  arrange_group-refill [] before rows e = sym (refill_self rows)
  arrange_group-refill (k ∷ order) before rows e =
      rw (slots_from-keys 0 g before rows e, gather-slots_from g [] rows)
        (put_back-slots_from g [] rows (stable_sort (rank (k ∷ order)) (rows_in g rows)))

  -- So its places keep their groups, it has its rows in order, and any other has the rows it had.
  module _ (order : List Text) (rows : List Row) where
    pub settle-keys : map group_of (refill g (settled order rows) rows) ≡ map group_of rows
    settle-keys = refill-keys (settled order rows) rows (settled-IsIn order rows)

    pub rows_in-settle : rows_in g (refill g (settled order rows) rows) ≡ settled order rows
    rows_in-settle =
        rows_in-refill (settled order rows) rows (settled-IsIn order rows)
          (length-settled order rows)

    pub rows_in-settle_other :
        (f : Text)
        → text_eq f g ≡ false
        → rows_in f (refill g (settled order rows) rows) ≡ rows_in f rows
    rows_in-settle_other f =
        rows_in-refill_other f (settled order rows) rows (settled-IsIn order rows)
