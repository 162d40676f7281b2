-- ===== src/Plasmoid/Signing/Slots.antt =====
-- components/plasmoid/src/SmartCardHandler.cpp: the signing of a file, the slots of its job, and the
-- dismissal of a result.
use libre_kde.Base.{
  ℕ, suc, Bool, true, false, Text, is_empty, List, [], ◌∷◌, Option, some, if◌then◌else◌, ◌==◌,
}
use libre_kde.Kio.Source.{CertificateInfo}
use libre_kde.Plasmoid.SignOutcome.{SignOutcome, succeeded, failed}
use libre_kde.Plasmoid.Signing.{
  ReaderSignState, blank_state, Signer, is_live, publish_sign_surfaces, or_blank, put,
}

abbrev pub job_of : Option ReaderSignState → Option ℕ
job_of Option.none = Option.none
job_of (some entry) = entry.job

-- `QUrl::toLocalFile` of a local file's url, and the text as it is of any other.
abbrev pub path_or : Option Text → Text → Text
path_or Option.none url = url
path_or (some path) url = path

-- `signFile`. `local_file` is the path of a url of a local file.
unfoldable pub sign_file : (Text → Option Text) → Text → Signer → Signer
unfolding publish_sign_surfaces
sign_file local_file url s =
    if is_live (job_of (s.sign_states s.reader_name))
    then s
    else publish_sign_surfaces (record s {
      sign_states =
          put s.reader_name (record blank_state { job = some s.next_job; card = s.card })
            s.sign_states;
      links = λ j. if j == s.next_job then some s.reader_name else s.links j;
      next_job = suc s.next_job;
      begun =
          record {
            job = s.next_job;
            reader = s.reader_name;
            card = s.card;
            input_path = path_or (local_file url) url;
          }
          ∷ s.begun;
    })

abbrev pub label_of : CertificateInfo → Text
label_of c = if is_empty c.subject then c.id else c.subject

-- `pickFirstCert`: the choice, and the label that it leaves.
unfoldable pub pick_first_cert : List CertificateInfo → Option Text
pick_first_cert [] = Option.none
pick_first_cert (c ∷ more) = some c.id

unfoldable pub note_pick : Text → List CertificateInfo → Signer → Signer
note_pick reader [] s = s
note_pick reader (c ∷ more) s = record s {
  sign_states =
      put reader (record (or_blank (s.sign_states reader)) { cert_label = label_of c })
        s.sign_states;
}

-- The slot of a job's phase, on the reader's entry.
unfoldable pub phase_on : Text → ℕ → Option ReaderSignState → Signer → Signer
unfolding publish_sign_surfaces
phase_on reader phase Option.none s = s
phase_on reader phase (some entry) s =
    publish_sign_surfaces
      (record s { sign_states = put reader (record entry { phase = phase }) s.sign_states })

unfoldable pub on_phase : Text → ℕ → Signer → Signer
unfolding phase_on
on_phase reader phase s = phase_on reader phase (s.sign_states reader) s

-- The slots of a job's end; the job is done and will not call again.
unfoldable pub on_succeeded : ℕ → Text → Text → Text → Signer → Signer
unfolding publish_sign_surfaces
on_succeeded job reader path level s = publish_sign_surfaces (record s {
  sign_states =
      put reader
        (record (or_blank (s.sign_states reader)) {
          job = Option.none;
          outcome = succeeded;
          output_path = path;
          level = level;
          message = [];
        })
        s.sign_states;
  links = λ j. if j == job then Option.none else s.links j;
})

unfoldable pub on_failed : ℕ → Text → Text → Signer → Signer
unfolding publish_sign_surfaces
on_failed job reader message s = publish_sign_surfaces (record s {
  sign_states =
      put reader
        (record (or_blank (s.sign_states reader)) {
          job = Option.none;
          outcome = failed;
          output_path = [];
          level = [];
          message = message;
        })
        s.sign_states;
  links = λ j. if j == job then Option.none else s.links j;
})

abbrev pub is_none : SignOutcome → Bool
is_none SignOutcome.none = true
is_none _ = false

abbrev pub undone : ReaderSignState → ReaderSignState
undone entry = record entry {
  outcome = SignOutcome.none;
  output_path = [];
  cert_label = [];
  level = [];
  message = [];
}

unfoldable pub dismiss_on : Option ReaderSignState → Signer → Signer
unfolding publish_sign_surfaces
dismiss_on Option.none s = s
dismiss_on (some entry) s =
    if is_none entry.outcome
    then s
    else publish_sign_surfaces
        (record s { sign_states = put s.reader_name (undone entry) s.sign_states })

-- `dismissSignResult`.
unfoldable pub dismiss_sign_result : Signer → Signer
unfolding dismiss_on
dismiss_sign_result s = dismiss_on (s.sign_states s.reader_name) s
