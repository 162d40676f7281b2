-- ===== src/Shared/CredentialText.antt =====
-- shared/agentclient/CredentialText.cpp: the wording of the credential vocabulary.
use libre_kde.Base.{
  ℕ, Bool, true, false, ◌||◌, Text, codes, is_empty, text_eq, [], ◌∷◌, Option, none, some,
  if◌then◌else◌,
}
use libre_kde.Base.Decimal.{decimal}
use libre_kde.Shared.ErrorText.{Texts, say}

pub data CredentialKind : Type 0 where
  user sign puk can unknown : CredentialKind

pub data CredentialState : Type 0 where
  unknown transport operational needs_change blocked : CredentialState

pub data CredentialOutcome : Type 0 where
  ok user_cancelled invalid_pin blocked missing_fields key_activation_failed : CredentialOutcome
  unsupported card_removed entry_expired plugin_error unspecified : CredentialOutcome

unfoldable pub kind_name : Texts → CredentialKind → Text
kind_name texts CredentialKind.user = say texts (codes "User PIN")
kind_name texts CredentialKind.sign = say texts (codes "Signing PIN")
kind_name texts CredentialKind.puk = say texts (codes "PUK")
kind_name texts CredentialKind.can = say texts (codes "CAN")
kind_name texts CredentialKind.unknown = say texts (codes "Credential")

unfoldable pub state_name : Texts → CredentialState → Text
state_name texts CredentialState.transport = say texts (codes "Transport — activation needed")
state_name texts CredentialState.operational = say texts (codes "Operational")
state_name texts CredentialState.needs_change = say texts (codes "Change required")
state_name texts CredentialState.blocked = say texts (codes "Blocked")
state_name texts CredentialState.unknown = say texts (codes "Unknown")

abbrev pub is_neutral : CredentialOutcome → Bool
is_neutral CredentialOutcome.ok = true
is_neutral CredentialOutcome.user_cancelled = true
is_neutral _ = false

-- The plural form is the catalogue's, chosen by the number that is put in.
unfoldable pub invalid_pin_message : Texts → Text → Option ℕ → Text
invalid_pin_message texts who none = texts.translate (codes "The %1 was not correct.") (who ∷ [])
invalid_pin_message texts who (some left) =
    texts.translate (codes "The %1 was not correct — %2 attempts left.") (who ∷ decimal left ∷ [])

unfoldable pub outcome_message : Texts → CredentialOutcome → CredentialKind → Option ℕ → Text
unfolding invalid_pin_message
outcome_message texts CredentialOutcome.ok presented left = say texts (codes "Done.")
outcome_message texts CredentialOutcome.user_cancelled presented left = []
outcome_message texts CredentialOutcome.invalid_pin presented left =
    invalid_pin_message texts (kind_name texts presented) left
outcome_message texts CredentialOutcome.blocked presented left =
    texts.translate (codes "The %1 is now blocked.") (kind_name texts presented ∷ [])
outcome_message texts CredentialOutcome.missing_fields presented left =
    say texts (codes "A required value was not entered.")
outcome_message texts CredentialOutcome.key_activation_failed presented left =
    say texts (codes "The PIN was set, but activating the signing key failed.")
outcome_message texts CredentialOutcome.unsupported presented left =
    say texts (codes "This action isn't available on this card.")
outcome_message texts CredentialOutcome.card_removed presented left =
    say texts (codes "The card was removed before the operation finished.")
outcome_message texts CredentialOutcome.entry_expired presented left =
    say texts (codes "The entry window closed before a code was entered. Try again.")
outcome_message texts CredentialOutcome.plugin_error presented left =
    say texts (codes "The card reported an error.")
outcome_message texts CredentialOutcome.unspecified presented left =
    say texts (codes "The operation did not complete.")

abbrev or_empty : Option Text → Text
or_empty none = []
or_empty (some t) = t

-- A shipped translation of the agent's key, and else the agent's own text.
unfoldable pub guidance : Texts → Option Text → Option Text → Text
guidance texts none fallback = or_empty fallback
guidance texts (some key) fallback =
    let t = say texts key in if is_empty key || text_eq t key then or_empty fallback else t
