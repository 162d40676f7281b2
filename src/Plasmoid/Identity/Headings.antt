-- ===== src/Plasmoid/Identity/Headings.antt =====
-- components/plasmoid/src/SmartCardHandler.cpp, `applyGroupHeadings`: each group stands together, with its
-- heading on its first row.
use mathlib.Core.List.{append-nil}
use libre_kde.Base.{
  Bool, true, false, not, ◌&&◌, Text, text_eq, text_eq_iff, List, [], ◌∷◌, ◌++◌, some, ◌≡◌, refl,
  ap, ◌∙◌, subst, if◌then◌else◌, arith, is_empty, Bool-cases, inl, inr,
}
use libre_kde.Base.Groups.{
  contains, rows_of, value_or, collect_rows, first_groups, group_rows, collected_order,
  collected_rows, contains-append,
}
use libre_kde.Plasmoid.Identity.{Row}
use libre_kde.Plasmoid.Identity.Layout.{
  group_of, alone, head_rows, head_groups, apply_group_headings,
}
use libre_kde.Plasmoid.Identity.Slots.{rows_in}
use libre_kde.Plasmoid.Identity.Order.{is_once}

-- The groups of the rows in order of first appearance.
abbrev pub groups_in : List Row → List Text
groups_in = first_groups group_of alone []

-- A row, with a heading to print over it, which may be an empty one.
abbrev pub under : Text → Row → Row
under text row = record row { group_heading = some text }

abbrev pub all_under : Text → List Row → List Row
all_under text [] = []
all_under text (row ∷ rows) = under text row ∷ all_under text rows

-- The rows of one group: the heading over the first of them, and an empty one over each of the others.
unfoldable pub headed : Text → List Row → List Row
headed text [] = []
headed text (row ∷ rows) = under text row ∷ all_under [] rows

-- The rows of the groups, one group after the other, each with its heading over its first row.
unfoldable pub headed_groups : (Text → Text) → List Row → List Text → List Row
unfolding headed
headed_groups heading details [] = []
headed_groups heading details (g ∷ groups) =
    headed (heading g) (rows_in g details) ++ headed_groups heading details groups

head_rows-false : (text : Text) (rows : List Row) → head_rows text false rows ≡ all_under [] rows
unfolding head_rows
head_rows-false text [] = refl
head_rows-false text (row ∷ rows) =
    ap (λ (rs : List Row). under [] row ∷ rs) (head_rows-false text rows)

-- The loop over the rows of a group prints the heading once.
pub head_rows-headed : (text : Text) (rows : List Row) → head_rows text true rows ≡ headed text rows
unfolding head_rows headed
head_rows-headed text [] = refl
head_rows-headed text (row ∷ rows) =
    ap (λ (rs : List Row). under text row ∷ rs) (head_rows-false text rows)

-- The rows that the loop over the groups gives.
unfoldable sections : (Text → Text) → List Row → List Text → List Row
unfolding head_rows
sections heading details [] = []
sections heading details (g ∷ groups) =
    head_rows (heading g) true (rows_in g details) ++ sections heading details groups

group_rows-rows_in :
    (g : Text) (rows : List Row) → group_rows group_of alone g rows ≡ rows_in g rows
unfolding group_rows
group_rows-rows_in g [] = refl
group_rows-rows_in g (r ∷ rows) = ground (arith, group_rows-rows_in g rows)

module _ (heading : Text → Text) (details : List Row) where
  head_groups-sections :
      (table : List (Text × List Row)) (groups : List Text)
      → ((g : Text) → value_or (rows_of g table) [] ≡ rows_in g details)
      → head_groups heading groups table ≡ sections heading details groups
  unfolding head_groups sections
  head_groups-sections table [] full = refl
  head_groups-sections table (g ∷ groups) full =
      ap (λ (rows : List Row). head_rows (heading g) true rows ++ head_groups heading groups table)
        (full g)
      ∙ ap (λ (rows : List Row). head_rows (heading g) true (rows_in g details) ++ rows)
          (head_groups-sections table groups full)

  headings-sections :
      apply_group_headings heading details ≡ sections heading details (groups_in details)
  unfolding apply_group_headings contains rows_of
  headings-sections =
      head_groups-sections (collect_rows group_of alone details [] []).1
        (collect_rows group_of alone details [] []).0
        (λ g. collected_rows group_of alone g details [] [] ∙ group_rows-rows_in g details)
      ∙ ap (sections heading details) (collected_order group_of alone details [] [] (λ g. refl))

rows_in-append : (g : Text) (xs ys : List Row) → rows_in g (xs ++ ys) ≡ rows_in g xs ++ rows_in g ys
rows_in-append g [] ys = refl
rows_in-append g (x ∷ xs) ys = ground (arith, rows_in-append g xs ys)

-- The headed rows of one group, of which all stand in that group and none in another.
rows_in-head_rows :
    (f g text : Text) (first : Bool) (rows : List Row)
    → rows_in f (head_rows text first (rows_in g rows))
      ≡ (if text_eq g f then head_rows text first (rows_in g rows) else [])
unfolding head_rows
rows_in-head_rows f g text first [] = ground arith
rows_in-head_rows f g text first (r ∷ rows) = ground (
  arith,
  text_eq_iff r.group_key g,
  text_eq_iff r.group_key f,
  text_eq_iff g f,
  rows_in-head_rows f g text first rows,
  rows_in-head_rows f g text false rows,
)

-- A group that is not seen is among the groups exactly where it has a row.
contains-first_groups :
    (g : Text) (seen : List Text) (rows : List Row)
    → contains g (first_groups group_of alone seen rows)
      ≡ (not (contains g seen) && not (is_empty (rows_in g rows)))
unfolding first_groups contains
contains-first_groups g seen [] = ground arith
contains-first_groups g seen (r ∷ rows) = ground (
  arith,
  text_eq_iff r.group_key g,
  contains-append g r.group_key seen,
  contains-first_groups g seen rows,
  contains-first_groups g (seen ++ r.group_key ∷ []) rows,
)

first_groups-once :
    (seen : List Text) (rows : List Row) → is_once (first_groups group_of alone seen rows) ≡ true
unfolding first_groups is_once
first_groups-once seen [] = refl
first_groups-once seen (r ∷ rows) = ground (
  arith,
  text_eq_iff r.group_key r.group_key,
  contains-append r.group_key r.group_key seen,
  contains-first_groups r.group_key (seen ++ r.group_key ∷ []) rows,
  first_groups-once seen rows,
  first_groups-once (seen ++ r.group_key ∷ []) rows,
)

-- What sections have of a group.
rows_in-sections :
    (heading : Text → Text) (details : List Row) (f : Text) (groups : List Text)
    → is_once groups ≡ true
    → rows_in f (sections heading details groups)
      ≡ (if contains f groups then head_rows (heading f) true (rows_in f details) else [])
unfolding sections contains is_once
rows_in-sections heading details f [] once = refl
rows_in-sections heading details f (g ∷ groups) once =
    let apart =
      rows_in-append f (head_rows (heading g) true (rows_in g details))
        (sections heading details groups)
      ∙ ap (λ (rows : List Row). rows ++ rows_in f (sections heading details groups))
          (rows_in-head_rows f g (heading g) true details) in
    let ih = rows_in-sections heading details f groups (ground arith) in
    elim (Bool-cases (text_eq g f)) [
      | inl same ↦
          let e = (text_eq_iff g f).0 same in
          let absent : contains f groups ≡ false =
            subst (λ h. contains h groups ≡ false) e (ground arith) in
          apart
          ∙ (rw (same, ih, absent)
              (append-nil (head_rows (heading g) true (rows_in g details))
                ∙ ap (λ (h : Text). head_rows (heading h) true (rows_in h details)) e))
      | inr other ↦ apart ∙ rw (other, ih) refl
    ]

sections-headed_groups :
    (heading : Text → Text) (details : List Row) (groups : List Text)
    → sections heading details groups ≡ headed_groups heading details groups
unfolding sections headed_groups
sections-headed_groups heading details [] = refl
sections-headed_groups heading details (g ∷ groups) =
    ap (λ (rows : List Row). rows ++ sections heading details groups)
      (head_rows-headed (heading g) (rows_in g details))
    ∙ ap (λ (rows : List Row). headed (heading g) (rows_in g details) ++ rows)
        (sections-headed_groups heading details groups)

-- The layout with headings is one section for each group, in order of first appearance; of any group it
-- has the rows that the details have, in their order, the group's heading on the first of them and
-- an empty heading on each of the others.
pub apply_group_headings-sections :
    (heading : Text → Text) (details : List Row) (g : Text)
    → (apply_group_headings heading details ≡ headed_groups heading details (groups_in details))
      × (rows_in g (apply_group_headings heading details) ≡ headed (heading g) (rows_in g details))
apply_group_headings-sections heading details g =
    let e = headings-sections heading details in
    let there = contains-first_groups g [] details in
    (
      e ∙ sections-headed_groups heading details (groups_in details),
      ap (rows_in g) e
          ∙ rows_in-sections heading details g (groups_in details) (first_groups-once [] details)
          ∙ all_there (contains g (groups_in details)) (rows_in g details)
              (unfold contains in there)
          ∙ head_rows-headed (heading g) (rows_in g details),
    )
  where
    all_there :
        (known : Bool) (rows : List Row)
        → known ≡ not (is_empty rows)
        → (if known then head_rows (heading g) true rows else []) ≡ head_rows (heading g) true rows
    all_there known [] h = unfold head_rows in ground arith
    all_there known (r ∷ rows) h = ground arith
