-- ===== src/Plasmoid/Signing.antt =====
-- components/plasmoid/src/SmartCardHandler.cpp: the signing of each reader, and what the widget shows of it.
-- The hash of sign states is a function of the reader's name, and the connections of a running job one
-- of the job's number, which gives the reader that its slots have captured.
pub mod Slots
pub mod Machine
pub mod Mirror
pub mod Origin
pub mod Told
mod Tests
use libre_kde.Base.{
  ℕ, suc, Bool, true, false, not, ◌&&◌, ◌||◌, Text, is_empty, text_eq, List, [], ◌∷◌, Option, none,
  some, if◌then◌else◌, ◌==◌, ltb,
}
use libre_kde.Base.Groups.{contains}
use libre_kde.Kio.Source.{CertificateInfo}
use libre_kde.Plasmoid.SignOutcome.{SignOutcome, succeeded, failed}

-- A QPointer to a card is `none` once the card is deleted.
pub record ReaderSignState : Type 0 where
  pub job : Option ℕ
  pub card : Option ℕ
  pub phase : ℕ
  pub cert_label : Text
  pub outcome : SignOutcome
  pub output_path : Text
  pub level : Text
  pub message : Text

abbrev pub blank_state : ReaderSignState
blank_state = record {
  job = Option.none;
  card = Option.none;
  phase = 0;
  cert_label = [];
  outcome = SignOutcome.none;
  output_path = [];
  level = [];
  message = [];
}

-- What QML reads of the displayed reader's signing: `signingBusy`, `signPhase` and `signResult`.
pub record Surfaces : Type 0 where
  pub busy : Bool
  pub phase : ℕ
  pub outcome : SignOutcome
  pub output_path : Text
  pub cert_label : Text
  pub level : Text
  pub message : Text

pub data Signal : Type 0 where
  signing_busy_changed sign_phase_changed sign_result_changed : Signal

-- A job that was made: its number, the reader, the card that it signs with, and the file.
pub record Begun : Type 0 where
  pub job : ℕ
  pub reader : Text
  pub card : Option ℕ
  pub input_path : Text

-- The members of the handler that the signing uses, with the number of the next job, and what was begun
-- and emitted, the latest first.
pub record Signer : Type 0 where
  pub reader_name : Text
  pub card : Option ℕ
  pub sign_states : Text → Option ReaderSignState
  pub links : ℕ → Option Text
  pub published : Surfaces
  pub next_job : ℕ
  pub begun : List Begun
  pub signals : List Signal

abbrev pub same_ref : Option ℕ → Option ℕ → Bool
same_ref Option.none Option.none = true
same_ref Option.none (some b) = false
same_ref (some a) Option.none = false
same_ref (some a) (some b) = a == b

abbrev pub of_card : Option ℕ → Option ReaderSignState → Option ReaderSignState
of_card card Option.none = Option.none
of_card card (some entry) = if same_ref entry.card card then some entry else Option.none

-- `activeSignState`.
unfoldable pub active_sign_state : Signer → Option ReaderSignState
active_sign_state s = of_card s.card (s.sign_states s.reader_name)

abbrev pub is_live {ℓ} : {A : Type ℓ} → Option A → Bool
is_live Option.none = false
is_live (some a) = true

-- `signingBusy`, `signPhase` and `signResult`, of the entry.
abbrev pub surfaces_of : Option ReaderSignState → Surfaces
surfaces_of Option.none = record {
  busy = false;
  phase = 0;
  outcome = SignOutcome.none;
  output_path = [];
  cert_label = [];
  level = [];
  message = [];
}
surfaces_of (some entry) = record {
  busy = is_live entry.job;
  phase = entry.phase;
  outcome = entry.outcome;
  output_path = entry.output_path;
  cert_label = entry.cert_label;
  level = entry.level;
  message = entry.message;
}

unfoldable pub surfaces : Signer → Surfaces
unfolding active_sign_state
surfaces s = surfaces_of (active_sign_state s)

abbrev pub same_outcome : SignOutcome → SignOutcome → Bool
same_outcome SignOutcome.none SignOutcome.none = true
same_outcome succeeded succeeded = true
same_outcome failed failed = true
same_outcome _ _ = false

abbrev pub same_bool : Bool → Bool → Bool
same_bool true b = b
same_bool false b = not b

-- The comparison of two results, key by key.
unfoldable pub same_result : Surfaces → Surfaces → Bool
same_result a b =
    same_outcome a.outcome b.outcome
    && text_eq a.output_path b.output_path
    && text_eq a.cert_label b.cert_label
    && text_eq a.level b.level
    && text_eq a.message b.message

abbrev pub tell_if : Bool → Signal → List Signal → List Signal
tell_if changed signal signals = if changed then signal ∷ signals else signals

-- The signals of what has changed, the latest first.
unfoldable pub told : Surfaces → Surfaces → List Signal → List Signal
unfolding same_result
told old new signals = tell_if (not (same_result new old)) sign_result_changed (
    tell_if (not (new.phase == old.phase)) sign_phase_changed
      (tell_if (not (same_bool new.busy old.busy)) signing_busy_changed signals))

-- `publishSignSurfaces`.
unfoldable pub publish_sign_surfaces : Signer → Signer
unfolding surfaces told
publish_sign_surfaces s = record s {
  published = surfaces s;
  signals = told s.published (surfaces s) s.signals;
}

abbrev pub or_blank : Option ReaderSignState → ReaderSignState
or_blank Option.none = blank_state
or_blank (some entry) = entry

-- `m_signStates[reader] = entry`.
abbrev pub put :
    Text → ReaderSignState → (Text → Option ReaderSignState) → Text → Option ReaderSignState
put reader entry states r = if text_eq reader r then some entry else states r

abbrev pub kept : Bool → Option ReaderSignState → Option ReaderSignState
kept known Option.none = Option.none
kept known (some entry) = if is_live entry.job || known then some entry else Option.none

-- The loop of `updateReaderRosters`: a departed reader is forgotten, unless it is still signing.
unfoldable pub prune : List Text → (Text → Option ReaderSignState) → Text → Option ReaderSignState
prune roster states r = kept (contains r roster) (states r)

-- `refresh`, as far as the signing goes: the readers as they are from then on, and the reader and the card
-- that the widget shows.
unfoldable pub retarget : List Text → Text → Option ℕ → Signer → Signer
unfolding prune publish_sign_surfaces
retarget roster reader card s =
    publish_sign_surfaces
      (record s { sign_states = prune roster s.sign_states; reader_name = reader; card = card })
