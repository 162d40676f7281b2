-- ===== src/Plasmoid/Identity/Headline.antt =====
-- components/plasmoid/src/SmartCardHandler.cpp: what stands in the summary of an identity.
use libre_kde.Base.{
  true, false, ◌&&◌, Text, is_empty, text_eq, text_eq_iff, List, [], ◌∷◌, ◌≡◌, refl, ap, ◌∙◌, ◌⊎◌,
  inl, inr, arith, Bool-cases, All, All-append, In,
}
use libre_kde.Base.Groups.{contains}
use libre_kde.Plasmoid.Unit.{Chars}
use libre_kde.Plasmoid.Identity.{
  Row, summary_keys, full_name, name_component_keys, has_text, has_name_component, effective_keys,
  first_row, curated, fallback, or_fallback, curate_identity_summary, holds,
}

-- A row with text under one of the keys.
abbrev pub IsNamed : Chars → List Text → Row → Type 0
IsNamed chars keys r = (contains r.field_key keys ≡ true) × (has_text chars r ≡ true)

contains-cons :
    (chars : Chars) (key : Text) (keys : List Text) (rows : List Row)
    → All (IsNamed chars keys) rows
    → All (IsNamed chars (key ∷ keys)) rows
contains-cons chars key keys [] h = tt
contains-cons chars key keys (r ∷ rows) h =
    ((unfold contains in ground arith, h.0.1), contains-cons chars key keys rows h.1)

first_row-IsNamed :
    (chars : Chars) (key : Text) (keys : List Text) (fields : List Row)
    → All (IsNamed chars (key ∷ keys)) (first_row chars key fields)
unfolding first_row contains has_text
first_row-IsNamed chars key keys [] = tt
first_row-IsNamed chars key keys (r ∷ fields) = ground (
  arith,
  text_eq_iff r.field_key key,
  text_eq_iff key r.field_key,
  first_row-IsNamed chars key keys fields,
)

curated-IsNamed :
    (chars : Chars) (keys : List Text) (fields : List Row)
    → All (IsNamed chars keys) (curated chars keys fields)
unfolding curated
curated-IsNamed chars [] fields = tt
curated-IsNamed chars (key ∷ keys) fields =
    All-append (IsNamed chars (key ∷ keys)) (first_row chars key fields) (curated chars keys fields)
      (first_row-IsNamed chars key keys fields)
      (contains-cons chars key keys (curated chars keys fields) (curated-IsNamed chars keys fields))

-- The fields have text under one of the keys.
abbrev Names : Chars → List Text → List Row → Type 0
Names chars keys fields = (r : Row) × In r fields × IsNamed chars keys r

first_row-found :
    (chars : Chars) (key : Text) (r : Row) (fields : List Row)
    → In r fields
    → r.field_key ≡ key
    → has_text chars r ≡ true
    → is_empty (first_row chars key fields) ≡ false
unfolding first_row
first_row-found chars key r [] here e text = absurd here
first_row-found chars key r (s ∷ fields) (inl same) e text =
    ground (arith, text_eq_iff s.field_key key)
first_row-found chars key r (s ∷ fields) (inr later) e text =
    ground (arith, first_row-found chars key r fields later e text)

curated-found :
    (chars : Chars) (keys : List Text) (fields : List Row) (r : Row)
    → In r fields
    → IsNamed chars keys r
    → is_empty (curated chars keys fields) ≡ false
unfolding curated contains
curated-found chars [] fields r here named = absurd (ground arith)
curated-found chars (key ∷ keys) fields r here (known, text) =
    elim (Bool-cases (text_eq key r.field_key)) [
      | inl e ↦
          let found =
            first_row-found chars key r fields here (ground (arith, text_eq_iff key r.field_key))
              text in
          ground arith
      | inr e ↦
          let found = curated-found chars keys fields r here (ground arith, text) in
          elim (Bool-cases (is_empty (first_row chars key fields))) [
            | inl none ↦ ground arith
            | inr some ↦ ground arith
          ]
    ]

has_name_component-Names :
    (chars : Chars) (fields : List Row)
    → has_name_component chars fields ≡ true
    → Names chars name_component_keys fields
unfolding has_name_component
has_name_component-Names chars [] h = absurd (ground arith)
has_name_component-Names chars (r ∷ fields) h =
    elim (Bool-cases (contains r.field_key name_component_keys && has_text chars r)) [
      | inl e ↦ (r, inl refl, ground arith)
      | inr e ↦
          let (s, here, named) = has_name_component-Names chars fields (ground arith) in
          (s, inr here, named)
    ]

-- A property of every row that stands in the list.
All-of-In : (P : Row → Type 0) (rows : List Row) → ((r : Row) → In r rows → P r) → All P rows
All-of-In P [] h = tt
All-of-In P (r ∷ rows) h = (h r (inl refl), All-of-In P rows (λ s here. h s (inr here)))

-- No row with text stands under one of the keys.
abbrev pub IsNameless : Chars → List Text → List Row → Type 0
IsNameless chars keys = All (λ r. (contains r.field_key keys && has_text chars r) ≡ false)

nothing_found :
    (chars : Chars) (keys : List Text) (fields : List Row)
    → curated chars keys fields ≡ []
    → IsNameless chars keys fields
nothing_found chars keys fields e =
    All-of-In (λ r. (contains r.field_key keys && has_text chars r) ≡ false) fields
      λ r here. elim (Bool-cases (contains r.field_key keys && has_text chars r)) [
        | inl named ↦
            let found = curated-found chars keys fields r here (ground arith) in
            absurd (ground arith)
        | inr other ↦ other
      ]

curated-nil : (chars : Chars) (keys : List Text) → curated chars keys [] ≡ []
unfolding curated first_row
curated-nil chars [] = refl
curated-nil chars (key ∷ keys) = curated-nil chars keys

fallback-is_empty : (fields : List Row) → is_empty (fallback 4 [] fields) ≡ is_empty fields
unfolding fallback holds
fallback-is_empty [] = refl
fallback-is_empty (r ∷ fields) = refl

-- The summary of fields of which the curated rows are the given ones.
module _ (chars : Chars) (keys : List Text) (fields : List Row) where
  or_fallback-IsHeadline :
      (rows : List Row)
      → curated chars keys fields ≡ rows
      → All (IsNamed chars keys) rows
      → (is_empty (or_fallback fields rows) ≡ is_empty fields)
        × (All (IsNamed chars keys) (or_fallback fields rows) ⊎ IsNameless chars keys fields)
  unfolding or_fallback
  or_fallback-IsHeadline [] e named =
      (fallback-is_empty fields, inr (nothing_found chars keys fields e))
  or_fallback-IsHeadline (r ∷ rows) e named = (filled fields e, inl named)
    where
      filled : (fields : List Row) → curated chars keys fields ≡ r ∷ rows → false ≡ is_empty fields
      filled [] e = absurd (let none = curated-nil chars keys in cc)
      filled (s ∷ fields) e = refl

-- The summary is empty exactly where the fields are, and each of its rows has text under one of the
-- keys in force, unless no field has: a row without text is never preferred, and the first rows stand
-- in only where nothing better is there.
pub curate_identity_summary-IsHeadline :
    (chars : Chars) (fields : List Row)
    → (is_empty (curate_identity_summary chars fields) ≡ is_empty fields)
      × (All (IsNamed chars (effective_keys chars fields)) (curate_identity_summary chars fields)
          ⊎ IsNameless chars (effective_keys chars fields) fields)
unfolding curate_identity_summary
curate_identity_summary-IsHeadline chars fields =
    let keys = effective_keys chars fields in
    or_fallback-IsHeadline chars keys fields (curated chars keys fields) refl
      (curated-IsNamed chars keys fields)

summary_keys-contains :
    (key : Text) → contains key name_component_keys ≡ true → contains key summary_keys ≡ true
unfolding contains
summary_keys-contains key h = ground arith

full_name_out : contains full_name summary_keys ≡ false
unfolding contains text_eq
full_name_out = refl

not_full_name : (key : Text) → contains key summary_keys ≡ true → text_eq key full_name ≡ false
not_full_name key h = elim (Bool-cases (text_eq key full_name)) [
  | inl e ↦
      let same = (text_eq_iff key full_name).0 e in
      absurd (let never = ap (λ (k : Text). contains k summary_keys) same ∙ full_name_out in cc)
  | inr e ↦ e
]

All-not_full_name :
    (chars : Chars) (rows : List Row)
    → All (IsNamed chars summary_keys) rows
    → All (λ r. text_eq r.field_key full_name ≡ false) rows
All-not_full_name chars [] h = tt
All-not_full_name chars (r ∷ rows) h =
    (not_full_name r.field_key h.0.0, All-not_full_name chars rows h.1)

-- Where a part of a name has text, the summary has rows, each with text under one of the curated keys,
-- and none of them is the full name.
pub curate_identity_summary-IsNamed :
    (chars : Chars) (fields : List Row)
    → has_name_component chars fields ≡ true
    → (is_empty (curate_identity_summary chars fields) ≡ false)
      × All (IsNamed chars summary_keys) (curate_identity_summary chars fields)
      × All (λ r. text_eq r.field_key full_name ≡ false) (curate_identity_summary chars fields)
unfolding curate_identity_summary effective_keys or_fallback
curate_identity_summary-IsNamed chars fields h =
    let (r, here, named_here) = has_name_component-Names chars fields h in
    let found =
      curated-found chars summary_keys fields r here
        (summary_keys-contains r.field_key named_here.0, named_here.1) in
    let named = curated-IsNamed chars summary_keys fields in
    rw h (shown (curated chars summary_keys fields) found named)
  where
    shown :
        (rows : List Row)
        → is_empty rows ≡ false
        → All (IsNamed chars summary_keys) rows
        → (is_empty (or_fallback fields rows) ≡ false)
          × All (IsNamed chars summary_keys) (or_fallback fields rows)
          × All (λ r. text_eq r.field_key full_name ≡ false) (or_fallback fields rows)
    shown [] found named = absurd (ground arith)
    shown (r ∷ rows) found named = (refl, named, All-not_full_name chars (r ∷ rows) named)
