-- ===== src/Plasmoid/Identity/Order.antt =====
-- components/plasmoid/src/SmartCardHandler.cpp, `applyFieldOrder`: the rows of each group in its order,
-- whatever the order in which the hash of slots is walked.
use libre_kde.Base.{
  ℕ, Bool, true, false, not, ◌&&◌, Text, text_eq, text_eq_iff, List, [], ◌∷◌, ◌≡◌, refl, ap, sym,
  ◌∙◌, subst, if◌then◌else◌, arith, All, is_empty, map, Bool-cases, inl, inr, ◌≤◌,
}
use libre_kde.Base.Groups.{contains}
use libre_kde.Plasmoid.Identity.{Row}
use libre_kde.Plasmoid.Identity.Layout.{
  group_of, rank, stable_sort, slots_by_group, arrange_groups, apply_field_order,
}
use libre_kde.Plasmoid.Identity.Sorting.{
  IsSorted, of_rank, stable_sort-IsSorted, of_rank-stable_sort,
}
use libre_kde.Plasmoid.Identity.Ranks.{IsFirstPlace, rank-IsFirstPlace}
use libre_kde.Plasmoid.Identity.Slots.{
  rows_in, refill, settled, arrange_group-refill, settle-keys, rows_in-settle, rows_in-settle_other,
}

-- No group is walked twice.
unfoldable pub is_once : List Text → Bool
unfolding contains
is_once [] = true
is_once (g ∷ walk) = not (contains g walk) && is_once walk

not-true : (b c : Bool) → (not b && c) ≡ true → b ≡ false
not-true b c h = ground arith

module _ (field_order : Text → List Text) (before : List Row) where
  arrange-step :
      (g : Text) (walk : List Text) (rows : List Row)
      → map group_of before ≡ map group_of rows
      → arrange_groups field_order (slots_by_group (g ∷ walk) before) rows
        ≡ arrange_groups field_order
            (slots_by_group walk before)
            (refill g (settled g (field_order g) rows) rows)
  unfolding arrange_groups slots_by_group
  arrange-step g walk rows e =
      ap (arrange_groups field_order (slots_by_group walk before))
        (arrange_group-refill g (field_order g) before rows e)

  arrange-keys :
      (walk : List Text) (rows : List Row)
      → map group_of before ≡ map group_of rows
      → map group_of (arrange_groups field_order (slots_by_group walk before) rows)
        ≡ map group_of rows
  arrange-keys [] rows e = unfold arrange_groups slots_by_group in refl
  arrange-keys (g ∷ walk) rows e =
      let kept = settle-keys g (field_order g) rows in
      ap (map group_of) (arrange-step g walk rows e)
      ∙ arrange-keys walk (refill g (settled g (field_order g) rows) rows) (e ∙ sym kept)
      ∙ kept

  -- What a walk makes of the rows of a group.
  abbrev arranged : Text → Bool → List Row → List Row
  arranged f walked rows = if walked then settled f (field_order f) rows else rows_in f rows

  settled-other :
      (f g : Text) (walked : Bool) (rows : List Row)
      → text_eq f g ≡ false
      → arranged f walked (refill g (settled g (field_order g) rows) rows) ≡ arranged f walked rows
  settled-other f g true rows other =
      ap
        (λ (own : List Row).
          if is_empty (field_order f) then own else stable_sort (rank (field_order f)) own)
        (rows_in-settle_other g (field_order g) rows f other)
  settled-other f g false rows other = rows_in-settle_other g (field_order g) rows f other

  arranged-step :
      (f g : Text) (walk : List Text) (rows : List Row)
      → is_once (g ∷ walk) ≡ true
      → arranged f (contains f walk) (refill g (settled g (field_order g) rows) rows)
        ≡ arranged f (contains f (g ∷ walk)) rows
  unfolding is_once contains
  arranged-step f g walk rows once = elim (Bool-cases (text_eq g f)) [
    | inl same ↦
        let e = (text_eq_iff g f).0 same in
        let absent : contains f walk ≡ false =
          subst (λ h. contains h walk ≡ false) e (not-true (contains g walk) (is_once walk) once) in
        rw (absent, same)
          (subst
            (λ h.
              rows_in h (refill g (settled g (field_order g) rows) rows)
              ≡ settled h (field_order h) rows)
            e (rows_in-settle g (field_order g) rows))
    | inr other ↦ rw other (
        settled-other f g (contains f walk) rows (ground (arith, text_eq_iff f g, text_eq_iff g f)))
  ]

  arrange-rows :
      (f : Text) (walk : List Text) (rows : List Row)
      → is_once walk ≡ true
      → map group_of before ≡ map group_of rows
      → rows_in f (arrange_groups field_order (slots_by_group walk before) rows)
        ≡ arranged f (contains f walk) rows
  arrange-rows f [] rows once e = unfold arrange_groups slots_by_group contains in refl
  arrange-rows f (g ∷ walk) rows once e =
      let now = refill g (settled g (field_order g) rows) rows in
      ap (rows_in f) (arrange-step g walk rows e)
      ∙ arrange-rows f walk now (unfold is_once in ground arith)
          (e ∙ sym (settle-keys g (field_order g) rows))
      ∙ arranged-step f g walk rows once

-- The groups stand where they stood.
keys_lem :
    (field_order : Text → List Text) (walk : List Text) (details : List Row)
    → map group_of (apply_field_order field_order walk details) ≡ map group_of details
unfolding apply_field_order
keys_lem field_order walk details = arrange-keys field_order details walk details refl

pub rows_lem :
    (field_order : Text → List Text) (walk : List Text) (details : List Row) (g : Text)
    → is_once walk ≡ true
    → rows_in g (apply_field_order field_order walk details)
      ≡ (if contains g walk then settled g (field_order g) details else rows_in g details)
unfolding apply_field_order
rows_lem field_order walk details g once = arrange-rows field_order details g walk details once refl

rank-nil : (rows : List Row) → All (λ s. 0 ≤ rank [] s) rows
rank-nil [] = tt
rank-nil (r ∷ rows) = (omega arith, rank-nil rows)

IsSorted-nil : (rows : List Row) → IsSorted (rank []) rows
unfolding rank
IsSorted-nil [] = tt
IsSorted-nil (r ∷ rows) = (rank-nil rows, IsSorted-nil rows)

-- The group's rows in its order: by rank, and rows of one rank as they came.
settled-IsSorted :
    (g : Text) (order : List Text) (rows : List Row) (k : ℕ)
    → IsSorted (rank order) (settled g order rows)
      × (of_rank (rank order) k (settled g order rows) ≡ of_rank (rank order) k (rows_in g rows))
settled-IsSorted g [] rows k = (IsSorted-nil (rows_in g rows), refl)
settled-IsSorted g (f ∷ order) rows k = (
  stable_sort-IsSorted (rank (f ∷ order)) (rows_in g rows),
  of_rank-stable_sort (rank (f ∷ order)) k (rows_in g rows),
)

-- Of a walk that has a group, and none twice, the rows of the group come out in the group's order, rows
-- that it ranks alike as they came, and every place keeps its group; the rank of a row in the order is
-- the first place that has its key, and the order's length where none has.
pub apply_field_order-IsSorted :
    (field_order : Text → List Text) (walk : List Text) (details : List Row) (g : Text) (k : ℕ)
    (row : Row)
    → is_once walk ≡ true
    → contains g walk ≡ true
    → (map group_of (apply_field_order field_order walk details) ≡ map group_of details)
      × IsSorted (rank (field_order g)) (rows_in g (apply_field_order field_order walk details))
      × (of_rank (rank (field_order g)) k (rows_in g (apply_field_order field_order walk details))
          ≡ of_rank (rank (field_order g)) k (rows_in g details))
      × IsFirstPlace row.field_key (field_order g) (rank (field_order g) row)
apply_field_order-IsSorted field_order walk details g k row once walked =
    let e = rows_lem field_order walk details g once in
    let (sorted, stable) = settled-IsSorted g (field_order g) details k in
    (
      keys_lem field_order walk details,
      rw (e, walked) sorted,
      rw (e, walked) stable,
      rank-IsFirstPlace (field_order g) row,
    )

rows_in-cons :
    (x y : Row) (xs ys : List Row)
    → x.group_key ≡ y.group_key
    → rows_in x.group_key (x ∷ xs) ≡ rows_in x.group_key (y ∷ ys)
    → x ≡ y
rows_in-cons x y xs ys e h =
    ground (arith, text_eq_iff x.group_key x.group_key, text_eq_iff y.group_key x.group_key)

rows_in-tail :
    (g : Text) (x : Row) (xs ys : List Row)
    → rows_in g (x ∷ xs) ≡ rows_in g (x ∷ ys)
    → rows_in g xs ≡ rows_in g ys
rows_in-tail g x xs ys h = ground arith

-- Rows are told apart by the groups of their places and the rows of each group.
rows_ext :
    (xs ys : List Row)
    → map group_of xs ≡ map group_of ys
    → ((g : Text) → rows_in g xs ≡ rows_in g ys)
    → xs ≡ ys
rows_ext [] [] e h = refl
rows_ext [] (y ∷ ys) e h = absurd (cc)
rows_ext (x ∷ xs) [] e h = absurd (cc)
rows_ext (x ∷ xs) (y ∷ ys) e h =
    let same = rows_in-cons x y xs ys (ground arith) (h x.group_key) in
    let rest =
      rows_ext xs ys (ground arith)
        (λ g. rows_in-tail g x xs ys (h g ∙ ap (λ (r : Row). rows_in g (r ∷ ys)) (sym same))) in
    cc

-- The hash of slots may be walked in any order: two walks that have the same groups, and none twice,
-- give the same rows.
pub apply_field_order-walk :
    (field_order : Text → List Text) (walk walk' : List Text) (details : List Row)
    → is_once walk ≡ true
    → is_once walk' ≡ true
    → ((g : Text) → contains g walk ≡ contains g walk')
    → apply_field_order field_order walk details ≡ apply_field_order field_order walk' details
apply_field_order-walk field_order walk walk' details once once' alike =
    rows_ext (apply_field_order field_order walk details)
      (apply_field_order field_order walk' details)
      (keys_lem field_order walk details ∙ sym (keys_lem field_order walk' details))
      λ g.
        rows_lem field_order walk details g once
        ∙ ap (λ (b : Bool). if b then settled g (field_order g) details else rows_in g details)
            (alike g)
        ∙ sym (rows_lem field_order walk' details g once')
