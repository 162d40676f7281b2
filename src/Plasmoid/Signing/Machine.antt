-- ===== src/Plasmoid/Signing/Machine.antt =====
-- components/plasmoid/src/SmartCardHandler.cpp: the signing of a widget as one step on what the event loop
-- delivers.
use libre_kde.Base.{ℕ, Text, List, [], ◌∷◌, Option, none, some, if◌then◌else◌, ◌==◌}
use libre_kde.Kio.Source.{CertificateInfo}
use libre_kde.Plasmoid.Signing.{ReaderSignState, Signer, surfaces_of, retarget}
use libre_kde.Plasmoid.Signing.Slots.{
  sign_file, note_pick, on_phase, on_succeeded, on_failed, dismiss_sign_result,
}

-- `registry`: the readers, and the reader and the card that the widget shows from then on. `chose`: a job
-- asks its chooser. `phase_moved`, `succeeded` and `failed` are the signals of a job.
pub data Event : Type 0 where
  registry : List Text → Text → Option ℕ → Event
  card_deleted : ℕ → Event
  sign_pressed : Text → Event
  dismissed : Event
  chose : ℕ → List CertificateInfo → Event
  phase_moved : ℕ → ℕ → Event
  succeeded : ℕ → Text → Text → Event
  failed : ℕ → Text → Event

abbrev pub without : ℕ → Option ℕ → Option ℕ
without c none = none
without c (some d) = if c == d then none else some d

abbrev pub forget_card : ℕ → Option ReaderSignState → Option ReaderSignState
forget_card c none = none
forget_card c (some entry) = some (record entry { card = without c entry.card })

-- The QPointers to a card that is deleted.
unfoldable pub delete_card : ℕ → Signer → Signer
delete_card c s = record s {
  card = without c s.card;
  sign_states = λ r. forget_card c (s.sign_states r);
}

-- A slot of a job, on the reader that it has captured; a job without connections calls none.
abbrev pub on_link : Option Text → (Text → Signer) → Signer → Signer
on_link none slot s = s
on_link (some reader) slot s = slot reader

module _ (local_file : Text → Option Text) where
  unfoldable pub step : Signer → Event → Signer
  unfolding delete_card
  step s (registry roster reader card) = retarget roster reader card s
  step s (card_deleted c) = delete_card c s
  step s (sign_pressed url) = sign_file local_file url s
  step s dismissed = dismiss_sign_result s
  step s (chose j candidates) = on_link (s.links j) (λ reader. note_pick reader candidates s) s
  step s (phase_moved j phase) = on_link (s.links j) (λ reader. on_phase reader phase s) s
  step s (succeeded j path level) =
      on_link (s.links j) (λ reader. on_succeeded j reader path level s) s
  step s (failed j message) = on_link (s.links j) (λ reader. on_failed j reader message s) s

  unfoldable pub run : Signer → List Event → Signer
  run s [] = s
  run s (e ∷ events) = run (step s e) events

-- No sign state, nothing begun.
abbrev pub new_signer : Signer
new_signer = record {
  reader_name = [];
  card = none;
  sign_states = λ r. none;
  links = λ j. none;
  published = surfaces_of none;
  next_job = 0;
  begun = [];
  signals = [];
}
