-- ===== src/Shared/IdentityRows/Checks.antt =====
-- shared/agentclient/IdentityRows.cpp: how a security check reads.
use libre_kde.Base.{
  true, false, not, Text, is_empty, text_eq, [], ◌∷◌, ◌++◌, Option, none, some, ◌≡◌, ◌≢◌, refl,
  if◌then◌else◌, ==_iff, arith, All,
}
use libre_kde.Shared.IdentityRows.Tables.{Phrase, status_tokens}
use libre_kde.Shared.IdentityRows.{
  IdentityLibrary, SecurityCheckEntry, Words, spoken, find, spoken_or, followed_by, head_of,
  tail_of, in_brackets, explanation_of, check_row, localized_status_token, plain_value,
  localized_field_value,
}
use libre_kde.Shared.IdentityRows.Floor.{IsHeard}

-- A status is one word.
abbrev pub IsWord : Text → Type 0
IsWord = All λ c. c ≢ b' '

split_word :
    (s rest : Text)
    → IsWord s
    → (head_of (s ++ b' ' ∷ rest) ≡ s) × (tail_of (s ++ b' ' ∷ rest) ≡ b' ' ∷ rest)
unfolding head_of tail_of
split_word [] rest h = ground arith
split_word (c ∷ s) rest h = ground (arith, ==_iff c b' ', h.0, split_word s rest h.1)

whole_word : (s : Text) → IsWord s → (head_of (s ++ []) ≡ s) × (tail_of (s ++ []) ≡ [])
unfolding head_of tail_of
whole_word [] h = ground arith
whole_word (c ∷ s) h = ground (arith, ==_iff c b' ', h.0, whole_word s h.1)

split_status :
    (s explanation : Text)
    → IsWord s
    → (head_of (s ++ in_brackets explanation) ≡ s)
      × (tail_of (s ++ in_brackets explanation) ≡ in_brackets explanation)
split_status s [] h = whole_word s h
split_status s (c ∷ more) h = split_word s (b'(' ∷ ((c ∷ more) ++ b')' ∷ [])) h

-- The outcome in words, or as it is where this build does not name it.
abbrev pub said_status : Words → Text → Text
said_status words status = spoken_or words (find status status_tokens) status

append-filled : (s t : Text) → is_empty s ≡ false → is_empty (s ++ t) ≡ false
append-filled [] t h = absurd (cc)
append-filled (c ∷ s) t h = refl

token_wins :
    (words : Words) (heard : IsHeard words) (named : Option Phrase) (status rest : Text)
    → (if not (is_empty (followed_by words named rest))
        then followed_by words named rest
        else status ++ rest)
      ≡ spoken_or words named status ++ rest
token_wins words heard none status rest = refl
token_wins words heard (some p) status rest =
    rw (append-filled (spoken words p) rest (heard p.context p.message)) refl

module _ {Field : Type 0} (library : IdentityLibrary Field) (words : Words)
    (heard : IsHeard words) where
  -- Of a catalogue without an empty text, in a group that the library counts among those of verdicts, the
  -- row of a check whose status is one word reads as the outcome in words, or the status as it is
  -- where this build has no words for it, with the explanation in brackets behind it, where there is one.
  pub check_row-said :
      (group_key : Text) (check : SecurityCheckEntry)
      → library.is_security_verdict_group group_key ≡ true
      → IsWord check.status
      → localized_field_value library words (check_row words group_key check)
        ≡ said_status words check.status ++ in_brackets (explanation_of words check)
  unfolding localized_field_value check_row localized_status_token plain_value text_eq
  check_row-said group_key check verdict word =
      let why = explanation_of words check in
      let (head, tail) = split_status check.status why word in
      rw (verdict, head, tail)
        (token_wins words heard (find check.status status_tokens) check.status (in_brackets why))
