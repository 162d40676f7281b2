-- ===== src/Plasmoid/Identity/Split.antt =====
-- components/plasmoid/src/SmartCardHandler.cpp: the summary and the details share the rows out.
use libre_kde.Base.{
  ℕ, zero, suc, ◌+◌, ◌≤◌, ◌<◌, Bool, true, not, ◌&&◌, Text, text_eq, text_eq_iff, List, [], ◌∷◌,
  ◌≡◌, refl, inl, inr, if◌then◌else◌, ltb, arith, Bool-cases,
}
use libre_kde.Base.Groups.{contains}
use libre_kde.Plasmoid.Unit.{Chars}
use libre_kde.Plasmoid.Identity.{
  Row, same_identity, holds, insert, summarised, curate_identity_details, has_name_component,
  effective_keys, first_row, curated, fallback, fallback_rows, or_fallback, curate_identity_summary,
}
use libre_kde.Plasmoid.Identity.Counting.{
  count, count-append, same_identity_iff, holds-count, count-details_from, count-insert,
  count-summarised,
}

-- How often a key stands in a list of keys.
abbrev times : Text → List Text → ℕ
times key [] = 0
times key (k ∷ keys) = (if text_eq k key then 1 else 0) + times key keys

all_differ : List Text → Bool
all_differ [] = true
all_differ (k ∷ keys) = not (contains k keys) && all_differ keys

times-contains : (key : Text) (keys : List Text) → contains key keys ≡ ltb 0 (times key keys)
unfolding contains
times-contains key [] = refl
times-contains key (k ∷ keys) = ground (arith, times-contains key keys)

times-le : (key : Text) (keys : List Text) → all_differ keys ≡ true → times key keys ≤ 1
unfolding all_differ
times-le key [] h = ground arith
times-le key (k ∷ keys) h =
    ground
      (arith, text_eq_iff k key, times-contains k keys, times-contains key keys, times-le key keys)

count-first_row :
    (chars : Chars) (i : Row) (key : Text) (fields : List Row)
    → (count i (first_row chars key fields) ≤ (if text_eq key i.field_key then 1 else 0))
      × (count i (first_row chars key fields) ≤ count i fields)
unfolding first_row same_identity
count-first_row chars i key [] = ground arith
count-first_row chars i key (r ∷ fields) = ground (
  arith,
  text_eq_iff key i.field_key,
  text_eq_iff r.field_key i.field_key,
  text_eq_iff r.field_key key,
  count-first_row chars i key fields,
)

count-curated :
    (chars : Chars) (i : Row) (keys : List Text) (fields : List Row)
    → (count i (curated chars keys fields) ≤ times i.field_key keys)
      × (ltb 0 (count i (curated chars keys fields)) ≡ true → 0 < count i fields)
unfolding curated
count-curated chars i [] fields = ground arith
count-curated chars i (key ∷ keys) fields = ground (
  arith,
  count-append i (first_row chars key fields) (curated chars keys fields),
  count-first_row chars i key fields,
  count-curated chars i keys fields,
)

effective_keys-differ :
    (chars : Chars) (fields : List Row) → all_differ (effective_keys chars fields) ≡ true
unfolding effective_keys all_differ contains text_eq
effective_keys-differ chars fields = elim (Bool-cases (has_name_component chars fields)) [
  | inl named ↦ rw named refl
  | inr nameless ↦ rw nameless refl
]

count-fallback :
    (i : Row) (left : ℕ) (seen fields : List Row)
    → (count i (fallback left seen fields) ≤ (if holds seen i then 0 else 1))
      × (count i (fallback left seen fields) ≤ count i fields)
unfolding fallback same_identity
count-fallback i zero seen fields = ground arith
count-fallback i (suc left) seen [] = ground arith
count-fallback i (suc left) seen (r ∷ fields) = ground (
  arith,
  holds-count seen i,
  holds-count seen r,
  holds-count (insert r seen) i,
  count-insert i r seen,
  same_identity_iff r i,
  count-fallback i (suc left) seen fields,
  count-fallback i left (insert r seen) fields,
)

-- A summary has an identity at most once, and only where the fields have it.
count-or_fallback :
    (i : Row) (fields summary : List Row)
    → count i summary ≤ 1
    → (ltb 0 (count i summary) ≡ true → 0 < count i fields)
    → (count i (or_fallback fields summary) ≤ 1)
      × (count i (or_fallback fields summary) ≤ count i fields)
unfolding or_fallback
count-or_fallback i fields [] once there = ground (arith, count-fallback i fallback_rows [] fields)
count-or_fallback i fields (r ∷ summary) once there = ground arith

count-summary :
    (chars : Chars) (i : Row) (fields : List Row)
    → (count i (curate_identity_summary chars fields) ≤ 1)
      × (count i (curate_identity_summary chars fields) ≤ count i fields)
unfolding curate_identity_summary
count-summary chars i fields =
    let keys = effective_keys chars fields in
    let (few, there) = count-curated chars i keys fields in
    let once = times-le i.field_key keys (effective_keys-differ chars fields) in
    count-or_fallback i fields (curated chars keys fields) (omega arith) there

-- The summary and the details together have each identity exactly as often as the fields do, and the
-- summary has none twice: a row that the one shows is not shown again by the other, and none is lost.
pub curate_identity-split :
    (chars : Chars) (fields : List Row) (i : Row)
    → (count i fields
        ≡ count i (curate_identity_summary chars fields)
          + count i (curate_identity_details fields (curate_identity_summary chars fields)))
      × (count i (curate_identity_summary chars fields) ≤ 1)
unfolding curate_identity_details
curate_identity-split chars fields i =
    let summary = curate_identity_summary chars fields in
    let (once, there) = count-summary chars i fields in
    let all = count-summarised i summary [] (omega arith) in
    (ground (arith, all, count-details_from i (summarised summary []) fields, once, there), once)
