-- ===== src/Shared/IdentityRows/Samples.antt =====
-- A catalogue, and a client library that knows one verdict group, for runs of the identity's code.
use libre_kde.Base.{Text, codes, text_eq, List, [], ◌∷◌, none, refl, if◌then◌else◌}
use libre_kde.Shared.IdentityRows.{
  IdentityRow, IdentityLibrary, FieldGroup, SecurityCheckEntry, Words,
}
use libre_kde.Shared.IdentityRows.Floor.{IsHeard, HasDates}

abbrev pub marked : Words
marked context message = b'~' ∷ message

pub marked-IsHeard : IsHeard marked
marked-IsHeard context message = refl

abbrev pub chain_check : SecurityCheckEntry
chain_check = record {
  ordinal = codes "1";
  id = codes "pa_csca_chain";
  label = codes "Chain";
  status = codes "FAILED";
  reason = codes "csca.chain-failed";
  detail = [];
}

-- The fields of this library are rows.
abbrev pub library : IdentityLibrary IdentityRow
library = record {
  separate_security_checks = λ group. record {
    checks = if text_eq group.key (codes "security_status") then chain_check ∷ [] else [];
    aggregates = group.fields;
  };
  flatten_identity_fields = λ groups. elim groups [ [] ↦ [] | group ∷ more ↦ group.fields ];
  is_security_verdict_group = λ key. text_eq key (codes "security_status");
  normalized_card_date = λ value. none;
  field_order_for_group = λ key. codes "given_name" ∷ codes "surname" ∷ [];
}

pub library-HasDates : HasDates library
library-HasDates value date e = absurd (cc)

abbrev pub row : Text → Text → Text → IdentityRow
row group key value = record {
  group_key = group;
  field_key = key;
  label_key = [];
  label_fallback = [];
  value = value;
}

abbrev pub surname : IdentityRow
surname = row (codes "personal") (codes "surname") (codes "Doe")

abbrev pub given_name : IdentityRow
given_name = row (codes "personal") (codes "given_name") (codes "Jo")

abbrev pub blank : IdentityRow
blank = row (codes "personal") (codes "title") []

abbrev pub groups : List (FieldGroup IdentityRow)
groups =
    record { key = codes "personal"; fields = surname ∷ blank ∷ given_name ∷ [] }
    ∷ record { key = codes "security_status"; fields = [] }
    ∷ []
