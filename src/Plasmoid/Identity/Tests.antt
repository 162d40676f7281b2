-- ===== src/Plasmoid/Identity/Tests.antt =====
-- Runs of the layout of an identity, and each theorem on it at two rows.
use libre_kde.Base.{
  ◌+◌, ◌≤◌, true, false, Text, codes, is_empty, leb, ◌&&◌, List, [], ◌∷◌, none, ◌≡◌, ◌⊎◌, refl, All,
  text_eq, map,
}
use libre_kde.Base.Groups.{contains}
use libre_kde.Shared.Agent.{ErrorCode, CallError, OperationStatus}
use libre_kde.Shared.Samples.{plain}
use libre_kde.Shared.IdentityRows.Samples.{
  marked, marked-IsHeard, library, library-HasDates, groups,
}
use libre_kde.Kio.AgentSource.{Report, ended}
use libre_kde.Kio.AgentSource.Identity.{read_identity}
use libre_kde.Plasmoid.Unit.{Chars}
use libre_kde.Plasmoid.Identity.{
  Row, has_name_component, effective_keys, curate_identity_summary, trimmed,
}
use libre_kde.Plasmoid.Identity.Layout.{group_of, rank, apply_field_order, apply_group_headings}
use libre_kde.Plasmoid.Identity.Counting.{count}
use libre_kde.Plasmoid.Identity.Headline.{IsNamed, IsNameless, curate_identity_summary-IsHeadline}
use libre_kde.Plasmoid.Identity.Sorting.{IsSorted, of_rank}
use libre_kde.Plasmoid.Identity.Ranks.{IsFirstPlace}
use libre_kde.Plasmoid.Identity.Slots.{rows_in}
use libre_kde.Plasmoid.Identity.Order.{is_once, apply_field_order-IsSorted, apply_field_order-walk}
use libre_kde.Plasmoid.Identity.Headings.{
  headed, headed_groups, groups_in, apply_group_headings-sections,
}
use libre_kde.Plasmoid.Identity.Model.{rebuild_identity_model}
use libre_kde.Plasmoid.Identity.Once.{rebuild_identity_model-once}
use libre_kde.Plasmoid.Identity.Agreement.{drawn, filled, rebuild_identity_model-read_identity}

abbrev chars : Chars
chars = record { is_space = λ c. leb c 32; is_digit = λ c. leb 48 c && leb c 57 }

abbrev row : Text → Text → Text → Row
row group key value = record {
  group_key = group;
  field_key = key;
  label = key;
  value = value;
  group_heading = none;
}

abbrev personal : Text
personal = codes "personal"

abbrev surname : Row
surname = row personal (codes "surname") (codes "Doe")

abbrev number : Row
number = row (codes "document") (codes "document_number") (codes "1")

abbrev given_name : Row
given_name = row personal (codes "given_name") (codes "Jo")

abbrev rows : List Row
rows = surname ∷ number ∷ given_name ∷ []

abbrev order : Text → List Text
order group = codes "given_name" ∷ codes "surname" ∷ []

abbrev walk : List Text
walk = codes "document" ∷ personal ∷ []

-- The rows of a group change places with one another only.
ordered : apply_field_order order walk rows ≡ given_name ∷ number ∷ surname ∷ []
unfolding apply_field_order text_eq
ordered = refl

walk-once : is_once walk ≡ true
unfolding is_once text_eq
walk-once = refl

walk-personal : contains personal walk ≡ true
unfolding contains text_eq
walk-personal = refl

names-rows : has_name_component chars rows ≡ true
unfolding has_name_component text_eq trimmed
names-rows = refl

curate_identity_summary-IsHeadline_example :
    (is_empty (curate_identity_summary chars rows) ≡ false)
    × (All (IsNamed chars (effective_keys chars rows)) (curate_identity_summary chars rows)
        ⊎ IsNameless chars (effective_keys chars rows) rows)
curate_identity_summary-IsHeadline_example = curate_identity_summary-IsHeadline chars rows

apply_field_order-IsSorted_example :
    (map group_of (apply_field_order order walk rows) ≡ map group_of rows)
    × IsSorted (rank (order personal)) (rows_in personal (apply_field_order order walk rows))
    × (of_rank (rank (order personal)) 0 (rows_in personal (apply_field_order order walk rows))
        ≡ of_rank (rank (order personal)) 0 (rows_in personal rows))
    × IsFirstPlace (codes "surname") (order personal) (rank (order personal) surname)
apply_field_order-IsSorted_example =
    apply_field_order-IsSorted order walk rows personal 0 surname walk-once walk-personal

apply_field_order-walk_example :
    apply_field_order order walk rows ≡ apply_field_order order walk rows
apply_field_order-walk_example =
    apply_field_order-walk order walk walk rows walk-once walk-once (λ g. refl)

apply_group_headings-sections_example :
    (apply_group_headings (λ g. g) rows ≡ headed_groups (λ g. g) rows (groups_in rows))
    × (rows_in personal (apply_group_headings (λ g. g) rows)
        ≡ headed personal (rows_in personal rows))
apply_group_headings-sections_example = apply_group_headings-sections (λ g. g) rows personal

rebuild_identity_model-once_example :
    (count surname (rebuild_identity_model library marked chars (λ rows. walk) groups).fields
      ≡ count surname (rebuild_identity_model library marked chars (λ rows. walk) groups).summary
        + count surname (rebuild_identity_model library marked chars (λ rows. walk) groups).details)
    × (count surname (rebuild_identity_model library marked chars (λ rows. walk) groups).summary
        ≤ 1)
rebuild_identity_model-once_example =
    rebuild_identity_model-once library marked chars (λ rows. walk) (λ rows. walk-once) groups
      surname

abbrev report : Report
report = record {
  status = OperationStatus.ok;
  error_code = ErrorCode.none;
  call_error = CallError.none;
  sync_error = none;
  message_key = [];
  message_fallback = [];
  certificates = [];
  photos = [];
  der = [];
}

rebuild_identity_model-read_identity_example :
    (rebuild_identity_model library marked chars (λ rows. walk) groups).fields
    ≡ map drawn (filled (read_identity library marked plain groups (ended report)).fields)
rebuild_identity_model-read_identity_example =
    rebuild_identity_model-read_identity library marked marked-IsHeard library-HasDates chars
      (λ rows. walk) plain groups report refl
