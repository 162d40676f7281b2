-- ===== src/Shared/IdentityRows/Tests.antt =====
-- Runs of shared/agentclient/IdentityRows.cpp: a failed check, and a surname.
use libre_kde.Base.{
  ◌⊎◌, true, false, codes, is_empty, text_eq, starts_with, ends_with, ◌++◌, ◌≡◌, refl, arith,
}
use libre_kde.Shared.IdentityRows.Tables.{status_tokens}
use libre_kde.Shared.IdentityRows.{
  check_row, localized_field_label, localized_field_value, in_brackets, explanation_of, find,
  localized_group_label, annex_group_heading,
}
use libre_kde.Shared.IdentityRows.Floor.{localized_field-heard}
use libre_kde.Shared.IdentityRows.Checks.{said_status, check_row-said}
use libre_kde.Shared.IdentityRows.Samples.{
  marked, marked-IsHeard, library, library-HasDates, chain_check, surname,
}

-- The outcome of a check is worded.
failed_said : said_status marked (codes "FAILED") ≡ codes "~Failed"
unfolding find status_tokens text_eq
failed_said = refl

-- A heading by prefix, whatever the id in the middle is.
annex_heading :
    localized_group_label marked (codes "annex.7.personal") ≡ codes "~Additional Personal Data"
unfolding localized_group_label annex_group_heading starts_with ends_with
annex_heading = refl

check_row-said_example :
    localized_field_value library marked (check_row marked (codes "security_status") chain_check)
    ≡ said_status marked (codes "FAILED") ++ in_brackets (explanation_of marked chain_check)
check_row-said_example =
    check_row-said library marked marked-IsHeard (codes "security_status") chain_check verdict
      (omega arith)
  where
    verdict : library.is_security_verdict_group (codes "security_status") ≡ true
    verdict = unfold text_eq in refl

localized_field-heard_example :
    (is_empty (localized_field_value library marked surname) ≡ false)
    × ((is_empty surname.field_key ≡ true)
        ⊎ (is_empty (localized_field_label marked surname) ≡ false))
localized_field-heard_example =
    localized_field-heard library marked marked-IsHeard library-HasDates surname
