-- ===== src/Signing/Job/Lawful/Runs.antt =====
-- shared/signing/SignJob.cpp: the signing half of a job, and its runs.
use libre_kde.Base.{
  In, Bool, ℕ, true, false, not, Text, is_empty, List, [], ◌∷◌, Option, none, some, All, ◌≡◌, refl,
  inl, inr, arith, pick,
}
use libre_kde.Shared.ErrorText.{Texts, say, for_code}
use libre_kde.Shared.ErrorText.Floor.{IsSpoken}
use libre_kde.Shared.Registry.{AgentCard}
use libre_kde.Kio.Source.{CertificateInfo}
use libre_kde.Signing.Format.{SignOptions}
use libre_kde.Signing.Job.{
  Desk, Written, unreadable_artifact, write_failure, written, unwritten, SignJob, OperationReport,
  new_job, fail, start, is_done, outcome_text, sign_on, begin_sign, conclude, store,
  on_sign_finished, Event, started, turn, card_deleted, certificates_finished, sign_finished,
  take_turn, step, run,
}
use libre_kde.Signing.Job.Lawful.{
  IsPicked, IsAgreed, IsMeant, IsLawful, fail-IsLawful, between-IsLawful, start_on-IsLawful,
  certificates-IsLawful, outcome-said,
}

module _ (texts : Texts) (spoken : IsSpoken texts) (desk : Desk) (held : Option AgentCard)
    (path mime override : Text) (chooser : Option (List CertificateInfo → Option Text))
    (events : List Event) where
  abbrev Agreed : SignOptions → Type 0
  Agreed = IsAgreed texts spoken desk held path mime override chooser events

  abbrev Lawful : SignJob → Type 0
  Lawful = IsLawful texts spoken desk held path mime override chooser events

  failing :
      (message : Text) (j : SignJob) → is_empty message ≡ false → Lawful j → Lawful (fail message j)
  failing = fail-IsLawful texts spoken desk held path mime override chooser events

  between :
      (j : SignJob) (cert_op sign_op : Bool) (meta : List (Text × Text))
      → Agreed j.sign_options
      → Lawful j
      → Lawful (record j { cert_op = cert_op; sign_op = sign_op; sign_meta = meta })
  between = between-IsLawful texts spoken desk held path mime override chooser events

  said : (message : Text) → is_empty (say texts message) ≡ false
  said message = spoken.translated message []

  sign_on-IsLawful :
      (card : Option AgentCard) (id : Text) (j : SignJob)
      → j.card ≡ card
      → IsPicked events chooser id
      → Agreed j.sign_options
      → Lawful j
      → Lawful (sign_on texts desk card id j)
  unfolding sign_on
  sign_on-IsLawful none id j e picks agreed law = failing _ j (said _) law
  sign_on-IsLawful (some card) id j e picks agreed law =
      pick Lawful (desk.opens j.input_path)
        (λ opened. record {
          kept = law.kept;
          on = law.on;
          settled = λ waits. agreed;
          picked = law.picked;
          meant = (((card, law.on card e, refl), law.kept.0, agreed, picks), law.meant);
        })
        (λ shut. failing _ j (said _) law)

  take_turn-IsLawful :
      (queued : Option Text) (j : SignJob)
      → j.queued ≡ queued
      → Lawful j
      → Lawful (take_turn texts desk queued j)
  unfolding take_turn begin_sign
  take_turn-IsLawful none j e law = law
  take_turn-IsLawful (some id) j e law =
      let agreed = law.settled (inr (inr (ground arith))) in
      sign_on-IsLawful j.card id (record j { queued = none }) refl (law.picked id e) agreed
        (record {
          kept = law.kept;
          on = law.on;
          settled = λ waits. agreed;
          picked = λ i f. absurd (ground arith);
          meant = law.meant;
        })

  -- What a signing that succeeded has for the file that it names.
  abbrev IsArtifact : OperationReport → ℕ → Type 0
  IsArtifact r a = In (sign_finished r) events × (is_done r.status ≡ true) × (r.artifact ≡ some a)

  conclude-IsLawful :
      (r : OperationReport) (a : ℕ) (w : Written) (j : SignJob)
      → IsArtifact r a
      → desk.write_signed_file a j.input_path j.sign_options.format j.sign_options.packaging ≡ w
      → Agreed j.sign_options
      → Lawful j
      → Lawful (conclude texts w j)
  unfolding conclude write_failure for_code
  conclude-IsLawful r a (unwritten unreadable_artifact name) j is e agreed law =
      failing _ j (said _) law
  conclude-IsLawful r a (unwritten _ name) j is e agreed law =
      failing _ j (spoken.translated _ _) law
  conclude-IsLawful r a (written output) j (here, ok, took) e agreed law =
      pick Lawful j.emitted
        (λ told. record {
          kept = law.kept;
          on = law.on;
          settled = law.settled;
          picked = law.picked;
          meant = law.meant;
        })
        (λ new. record {
          kept = law.kept;
          on = law.on;
          settled = law.settled;
          picked = law.picked;
          meant = ((r, a, j.sign_options, here, ok, took, agreed, rw⁻¹ law.kept.0 e), law.meant);
        })

  store-IsLawful :
      (r : OperationReport) (artifact : Option ℕ) (j : SignJob)
      → In (sign_finished r) events
      → is_done r.status ≡ true
      → r.artifact ≡ artifact
      → Agreed j.sign_options
      → Lawful j
      → Lawful (store texts desk artifact j)
  unfolding store for_code
  store-IsLawful r none j here ok took agreed law = failing _ j (said _) law
  store-IsLawful r (some a) j here ok took agreed law =
      conclude-IsLawful r a _ j (here, ok, took) refl agreed law

  signature-IsLawful :
      (r : OperationReport) (j : SignJob)
      → In (sign_finished r) events
      → Lawful j
      → Lawful (on_sign_finished texts desk r j)
  unfolding on_sign_finished
  signature-IsLawful r j here law =
      pick Lawful (not j.sign_op) (λ late. law)
        (λ mine.
          let agreed = law.settled (inr (inl (ground arith))) in
          pick Lawful (is_done r.status)
            (λ ok.
              store-IsLawful r r.artifact (record j { sign_op = false; sign_meta = r.sign_meta })
                here ok refl agreed (between j j.cert_op false r.sign_meta agreed law))
            (λ bad.
              failing (outcome_text texts r) (record j { sign_op = false })
                (outcome-said texts spoken desk held path mime override chooser events r)
                (between j j.cert_op false j.sign_meta agreed law)))

  step-IsLawful :
      (j : SignJob) (event : Event) → In event events → Lawful j → Lawful (step texts desk j event)
  unfolding step start
  step-IsLawful j started here law =
      start_on-IsLawful texts spoken desk held path mime override chooser events j.card j refl law
  step-IsLawful j turn here law = take_turn-IsLawful j.queued j refl law
  step-IsLawful j card_deleted here law = record {
    kept = law.kept;
    on = λ c e. absurd (ground arith);
    settled = law.settled;
    picked = law.picked;
    meant = law.meant;
  }
  step-IsLawful j (certificates_finished r) here law =
      certificates-IsLawful texts spoken desk held path mime override chooser events r j here law
  step-IsLawful j (sign_finished r) here law = signature-IsLawful r j here law

  run-IsLawful :
      (j : SignJob) (rest : List Event)
      → ((e : Event) → In e rest → In e events)
      → Lawful j
      → Lawful (run texts desk j rest)
  unfolding run
  run-IsLawful j [] all law = law
  run-IsLawful j (e ∷ rest) all law =
      run-IsLawful (step texts desk j e) rest (λ later i. all later (inr i))
        (step-IsLawful j e (all e (inl refl)) law)

  -- Whatever the events are, with a catalogue that has no empty text: each reading and each signing
  -- that the job asks for is of the card that it was made with, and each signing is of its own file, with
  -- the options that its type and its override stand for, and with the lone certificate that can sign of
  -- those that a reading reported, or the chooser's answer for several such; each success names the file that
  -- the artifact of a signing that ended well was written to under those options; and each failure has a
  -- sentence.
  pub run-IsMeant :
      All
        (IsMeant texts spoken desk held path mime override chooser events)
        (run texts desk (new_job desk held path mime override chooser) events).log
  unfolding new_job
  run-IsMeant =
      (run-IsLawful (new_job desk held path mime override chooser) events (λ e i. i)
        (record {
          kept = (refl, refl, refl, refl);
          on = λ c e. e;
          settled = λ waits. absurd (ground arith);
          picked = λ id e. absurd (ground arith);
          meant = tt;
        })).meant
