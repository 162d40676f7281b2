-- ===== src/Plasmoid/Signing/Mirror.antt =====
-- components/plasmoid/src/SmartCardHandler.cpp: a reader has one running job at most, and the slots of a
-- running job are those of its own reader.
use libre_kde.Base.{
  ℕ, suc, ◌<◌, Bool, Text, text_eq_iff, List, [], ◌∷◌, Option, none, some, ◌≡◌, refl, sym, ◌∙◌,
  if◌then◌else◌, ◌==◌, ==_iff, arith, Option-cases, inl, inr, pick,
}
use libre_kde.Base.Groups.{contains}
use libre_kde.Kio.Source.{CertificateInfo}
use libre_kde.Plasmoid.Signing.{
  ReaderSignState, Signer, kept, prune, put, or_blank, publish_sign_surfaces, retarget,
}
use libre_kde.Plasmoid.Signing.Slots.{
  job_of, sign_file, note_pick, on_phase, phase_on, undone, dismiss_on, on_succeeded, on_failed,
  dismiss_sign_result, is_none, label_of,
}
use libre_kde.Plasmoid.Signing.Machine.{
  Event, registry, card_deleted, sign_pressed, dismissed, chose, phase_moved, succeeded, failed,
  forget_card, on_link, step, run, new_signer,
}

pub record IsMirror (states : Text → Option ReaderSignState) (links : ℕ → Option Text) (next : ℕ)
    : Type 0 where
  pub linked : (j : ℕ) (r : Text) → links j ≡ some r → job_of (states r) ≡ some j
  pub live : (r : Text) (j : ℕ) → job_of (states r) ≡ some j → links j ≡ some r
  pub fresh : (j : ℕ) (r : Text) → links j ≡ some r → j < next

abbrev pub IsMirrored : Signer → Type 0
IsMirrored s = IsMirror s.sign_states s.links s.next_job

-- A step that leaves the jobs of the readers alone.
carried :
    (states states' : Text → Option ReaderSignState) (links : ℕ → Option Text) (next : ℕ)
    → ((r : Text) → job_of (states' r) ≡ job_of (states r))
    → IsMirror states links next
    → IsMirror states' links next
carried states states' links next jobs m = record {
  linked = λ j r e. jobs r ∙ m.linked j r e;
  live = λ r j e. m.live r j (sym (jobs r) ∙ e);
  fresh = m.fresh;
}

job_of-kept :
    (known : Bool) (entry : Option ReaderSignState) → job_of (kept known entry) ≡ job_of entry
job_of-kept known none = refl
job_of-kept known (some entry) = elim (Option-cases entry.job) [
  | inl done ↦ ground arith
  | inr (j, e) ↦ ground arith
]

job_of-put :
    (r q : Text) (entry : ReaderSignState) (states : Text → Option ReaderSignState)
    → entry.job ≡ job_of (states r)
    → job_of (put r entry states q) ≡ job_of (states q)
job_of-put r q entry states e = ground (arith, text_eq_iff r q)

job_of-blank : (entry : Option ReaderSignState) → (or_blank entry).job ≡ job_of entry
job_of-blank none = refl
job_of-blank (some entry) = refl

retarget-IsMirrored :
    (roster : List Text) (reader : Text) (card : Option ℕ) (s : Signer)
    → IsMirrored s
    → IsMirrored (retarget roster reader card s)
unfolding retarget publish_sign_surfaces prune
retarget-IsMirrored roster reader card s m =
    carried s.sign_states (prune roster s.sign_states) s.links s.next_job
      (λ r. job_of-kept (contains r roster) (s.sign_states r)) m

job_of-forget :
    (c : ℕ) (entry : Option ReaderSignState) → job_of (forget_card c entry) ≡ job_of entry
job_of-forget c none = refl
job_of-forget c (some entry) = refl

module _ (s : Signer) (reader : Text) (entry : ReaderSignState) where
  -- An entry that is changed and keeps its job.
  changed-IsMirrored :
      entry.job ≡ job_of (s.sign_states reader)
      → IsMirrored s
      → IsMirror (put reader entry s.sign_states) s.links s.next_job
  changed-IsMirrored same m =
      carried s.sign_states (put reader entry s.sign_states) s.links s.next_job
        (λ r. job_of-put reader r entry s.sign_states same) m

  -- The job of the reader has ended.
  ended-IsMirrored :
      (j : ℕ)
      → entry.job ≡ none
      → s.links j ≡ some reader
      → IsMirrored s
      → IsMirror
          (put reader entry s.sign_states)
          (λ i. if i == j then none else s.links i)
          s.next_job
  ended-IsMirrored j over mine m = record {
    linked = λ i r e. ground (
      arith,
      ==_iff i j,
      text_eq_iff reader r,
      m.linked i r (ground (arith, ==_iff i j)),
      m.linked j reader mine,
    );
    live = λ r i e. ground (
      arith,
      ==_iff i j,
      text_eq_iff reader r,
      m.live r i (ground (arith, text_eq_iff reader r)),
      mine,
    );
    fresh = λ i r e. m.fresh i r (ground (arith, ==_iff i j));
  }

  -- A reader that signs nothing begins a job.
  begun-IsMirrored :
      entry.job ≡ some s.next_job
      → job_of (s.sign_states reader) ≡ none
      → IsMirrored s
      → IsMirror
          (put reader entry s.sign_states)
          (λ i. if i == s.next_job then some reader else s.links i)
          (suc s.next_job)
  begun-IsMirrored new idle m = record {
    linked = λ i r e. ground (arith, ==_iff i s.next_job, text_eq_iff reader r, m.linked i r);
    live =
        λ r i e. ground (arith, ==_iff i s.next_job, text_eq_iff reader r, m.live r i, m.fresh i r);
    fresh = λ i r e. ground (arith, ==_iff i s.next_job, m.fresh i r);
  }

sign_file-IsMirrored :
    (local_file : Text → Option Text) (url : Text) (s : Signer)
    → IsMirrored s
    → IsMirrored (sign_file local_file url s)
unfolding sign_file publish_sign_surfaces
sign_file-IsMirrored local_file url s m =
    elim (Option-cases (job_of (s.sign_states s.reader_name))) [
      | inl idle ↦ rw idle (begun-IsMirrored s s.reader_name _ refl idle m)
      | inr (j, busy) ↦ rw busy m
    ]

note_pick-IsMirrored :
    (reader : Text) (candidates : List CertificateInfo) (s : Signer)
    → IsMirrored s
    → IsMirrored (note_pick reader candidates s)
unfolding note_pick
note_pick-IsMirrored reader [] s m = m
note_pick-IsMirrored reader (c ∷ more) s m =
    changed-IsMirrored s reader
      (record (or_blank (s.sign_states reader)) { cert_label = label_of c })
      (job_of-blank (s.sign_states reader)) m

phase_on-IsMirrored :
    (reader : Text) (phase : ℕ) (entry : Option ReaderSignState) (s : Signer)
    → s.sign_states reader ≡ entry
    → IsMirrored s
    → IsMirrored (phase_on reader phase entry s)
unfolding phase_on publish_sign_surfaces
phase_on-IsMirrored reader phase none s e m = m
phase_on-IsMirrored reader phase (some entry) s e m =
    changed-IsMirrored s reader (record entry { phase = phase }) (ground arith) m

dismiss_on-IsMirrored :
    (entry : Option ReaderSignState) (s : Signer)
    → s.sign_states s.reader_name ≡ entry
    → IsMirrored s
    → IsMirrored (dismiss_on entry s)
unfolding dismiss_on publish_sign_surfaces
dismiss_on-IsMirrored none s e m = m
dismiss_on-IsMirrored (some entry) s e m =
    pick IsMirrored (is_none entry.outcome) (λ nothing. m)
      (λ something. changed-IsMirrored s s.reader_name (undone entry) (ground arith) m)

-- What a slot of a job keeps, where it keeps it on the reader that the job's slots have captured.
on_link-IsMirrored :
    (link : Option Text) (slot : Text → Signer) (s : Signer)
    → IsMirrored s
    → ((reader : Text) → link ≡ some reader → IsMirrored (slot reader))
    → IsMirrored (on_link link slot s)
on_link-IsMirrored none slot s m h = m
on_link-IsMirrored (some reader) slot s m h = h reader refl

pub step-IsMirrored :
    (local_file : Text → Option Text) (s : Signer) (e : Event)
    → IsMirrored s
    → IsMirrored (step local_file s e)
unfolding step on_succeeded on_failed on_phase dismiss_sign_result publish_sign_surfaces
step-IsMirrored local_file s (registry roster reader card) m =
    retarget-IsMirrored roster reader card s m
step-IsMirrored local_file s (card_deleted c) m =
    carried s.sign_states (λ r. forget_card c (s.sign_states r)) s.links s.next_job
      (λ r. job_of-forget c (s.sign_states r)) m
step-IsMirrored local_file s (sign_pressed url) m = sign_file-IsMirrored local_file url s m
step-IsMirrored local_file s dismissed m =
    dismiss_on-IsMirrored (s.sign_states s.reader_name) s refl m
step-IsMirrored local_file s (chose j candidates) m =
    on_link-IsMirrored (s.links j) (λ reader. note_pick reader candidates s) s m
      (λ reader mine. note_pick-IsMirrored reader candidates s m)
step-IsMirrored local_file s (phase_moved j phase) m =
    on_link-IsMirrored (s.links j) (λ reader. on_phase reader phase s) s m
      (λ reader mine. phase_on-IsMirrored reader phase (s.sign_states reader) s refl m)
step-IsMirrored local_file s (succeeded j path level) m =
    on_link-IsMirrored (s.links j) (λ reader. on_succeeded j reader path level s) s m
      (λ reader mine. ended-IsMirrored s reader _ j refl mine m)
step-IsMirrored local_file s (failed j message) m =
    on_link-IsMirrored (s.links j) (λ reader. on_failed j reader message s) s m
      (λ reader mine. ended-IsMirrored s reader _ j refl mine m)

runs-IsMirrored :
    (local_file : Text → Option Text) (s : Signer) (events : List Event)
    → IsMirrored s
    → IsMirrored (run local_file s events)
unfolding run
runs-IsMirrored local_file s [] m = m
runs-IsMirrored local_file s (e ∷ events) m =
    runs-IsMirrored local_file (step local_file s e) events (step-IsMirrored local_file s e m)

pub new_signer-IsMirrored : IsMirrored new_signer
new_signer-IsMirrored = record {
  linked = λ j r e. absurd (ground arith);
  live = λ r j e. absurd (ground arith);
  fresh = λ j r e. absurd (ground arith);
}

-- However the events follow one another: the slots of a job that runs are those of the one reader whose
-- entry has the job, an entry with a job has its slots, and no job's number is given out again. So a
-- reader runs one job at most, and no job is without a reader that shows it.
pub run-IsMirrored :
    (local_file : Text → Option Text) (events : List Event)
    → IsMirrored (run local_file new_signer events)
run-IsMirrored local_file events =
    runs-IsMirrored local_file new_signer events new_signer-IsMirrored
