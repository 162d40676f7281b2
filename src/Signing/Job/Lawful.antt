-- ===== src/Signing/Job/Lawful.antt =====
-- shared/signing/SignJob.cpp: what a job asks of the agent and tells is what it was made for,
-- up to the end of its reading.
pub mod Runs
use libre_kde.Base.{
  In, Bool, ℕ, ◌≤◌, true, false, not, Text, is_empty, List, [], ◌∷◌, Option, none, some,
  if◌then◌else◌, All, length, ◌≡◌, ◌≢◌, refl, sym, ◌∙◌, ◌⊎◌, inl, inr, arith, pick,
}
use libre_kde.Shared.Agent.{pki}
use libre_kde.Shared.ErrorText.{Texts, say, for_code}
use libre_kde.Shared.ErrorText.Floor.{IsSpoken, for_outcome-spoken}
use libre_kde.Shared.Registry.{AgentCard, has_capability}
use libre_kde.Kio.Source.{CertificateInfo}
use libre_kde.Signing.Format.{SignOptions, choice_of, to_sign_options}
use libre_kde.Signing.Job.{
  Desk, Written, unreadable_artifact, write_failure, written, unwritten, Signal, read_certificates,
  sign, succeeded, failed, SignJob, OperationReport, new_job, fail, mime_of, read_with, start_on,
  start, signing_capable, chosen, queue, pick_certificate, is_done, outcome_text,
  on_certificates_finished, sign_on, begin_sign, conclude, store, on_sign_finished, Event, started,
  turn, card_deleted, certificates_finished, sign_finished, take_turn, step, run,
}

-- The lone certificate that can sign of those that a reading reported, or the chooser's answer for the
-- several ones of them that can.
abbrev pub IsPicked : List Event → Option (List CertificateInfo → Option Text) → Text → Type 0
IsPicked events chooser id =
    (r : OperationReport) × In (certificates_finished r) events
    × (is_done r.status ≡ true)
    × (((c : CertificateInfo) × (signing_capable r.certificates ≡ c ∷ []) × (id ≡ c.id))
        ⊎ ((ask : List CertificateInfo → Option Text) × (2
              ≤ length (signing_capable r.certificates))
            × (chooser ≡ some ask)
            × (ask (signing_capable r.certificates) ≡ some id)))

chosen-asked :
    (chooser : Option (List CertificateInfo → Option Text)) (signing : List CertificateInfo)
    (id : Text)
    → chosen chooser signing ≡ some id
    → (ask : List CertificateInfo → Option Text) × (chooser ≡ some ask) × (ask signing ≡ some id)
unfolding chosen
chosen-asked none signing id e = absurd (ground arith)
chosen-asked (some ask) signing id e = (ask, refl, e)

module _ (texts : Texts) (spoken : IsSpoken texts) (desk : Desk) (held : Option AgentCard)
    (path mime override : Text) (chooser : Option (List CertificateInfo → Option Text))
    (events : List Event) where
  -- The options that the job's type and override stand for.
  abbrev pub IsAgreed : SignOptions → Type 0
  IsAgreed options =
      to_sign_options
        (choice_of (if is_empty mime then desk.mime_type_for_file path else mime) override)
      ≡ some options

  -- The card that the job was made with.
  abbrev pub IsHeld : ℕ → Type 0
  IsHeld object = (c : AgentCard) × (held ≡ some c) × (c.object ≡ object)

  abbrev pub IsMeant : Signal → Type 0
  IsMeant (read_certificates card) = IsHeld card
  IsMeant (sign card id input options) =
      IsHeld card × (input ≡ path) × IsAgreed options × IsPicked events chooser id
  IsMeant (succeeded output) =
      (r : OperationReport) × (artifact : ℕ) × (options : SignOptions) × In (sign_finished r) events
      × (is_done r.status ≡ true)
      × (r.artifact ≡ some artifact)
      × IsAgreed options
      × (desk.write_signed_file artifact path options.format options.packaging ≡ written output)
  IsMeant (failed message) = is_empty message ≡ false

  abbrev IsKept : SignJob → Type 0
  IsKept j =
      (j.input_path ≡ path)
      × (j.mime_type ≡ mime)
      × (j.format_override ≡ override)
      × (j.chooser ≡ chooser)

  pub record IsLawful (j : SignJob) : Type 0 where
    pub kept : IsKept j
    pub on : (c : AgentCard) → j.card ≡ some c → held ≡ some c
    pub settled :
        (j.cert_op ≡ true) ⊎ (j.sign_op ≡ true) ⊎ (j.queued ≢ none) → IsAgreed j.sign_options
    pub picked : (id : Text) → j.queued ≡ some id → IsPicked events chooser id
    pub meant : All IsMeant j.log

  pub fail-IsLawful :
      (message : Text) (j : SignJob)
      → is_empty message ≡ false
      → IsLawful j
      → IsLawful (fail message j)
  unfolding fail
  fail-IsLawful message j said law =
      pick IsLawful j.emitted (λ told. law)
        (λ new. record {
          kept = law.kept;
          on = law.on;
          settled = law.settled;
          picked = law.picked;
          meant = (said, law.meant);
        })

  said : (message : Text) → is_empty (say texts message) ≡ false
  said message = spoken.translated message []

  read_with-IsLawful :
      (card : AgentCard) (options : Option SignOptions) (j : SignJob)
      → held ≡ some card
      → to_sign_options (choice_of (mime_of desk j) j.format_override) ≡ options
      → IsLawful j
      → IsLawful (read_with texts card options j)
  unfolding read_with mime_of for_code
  read_with-IsLawful card none j same e law = fail-IsLawful _ j (said _) law
  read_with-IsLawful card (some options) j same e law =
      let (path_kept, mime_kept, override_kept, chooser_kept) = law.kept in
      record {
        kept = law.kept;
        on = law.on;
        settled = λ waits. cc;
        picked = law.picked;
        meant = ((card, same, refl), law.meant);
      }

  pub start_on-IsLawful :
      (card : Option AgentCard) (j : SignJob)
      → j.card ≡ card
      → IsLawful j
      → IsLawful (start_on texts desk card j)
  unfolding start_on
  start_on-IsLawful none j e law = fail-IsLawful _ j (said _) law
  start_on-IsLawful (some card) j e law =
      pick IsLawful (not (has_capability card pki)) (λ cannot. fail-IsLawful _ j (said _) law)
        (λ can. read_with-IsLawful card _ j (law.on card e) refl law)

  queue-IsLawful :
      (id : Option Text) (j : SignJob)
      → ((i : Text) → id ≡ some i → IsPicked events chooser i × IsAgreed j.sign_options)
      → IsLawful j
      → IsLawful (queue texts id j)
  unfolding queue
  queue-IsLawful none j picks law = fail-IsLawful _ j (said _) law
  queue-IsLawful (some id) j picks law = record {
    kept = law.kept;
    on = law.on;
    settled = λ waits. (picks id refl).1;
    picked = λ i e. (picks i e).0;
    meant = law.meant;
  }

  -- Between two slots of a job whose options are settled.
  pub between-IsLawful :
      (j : SignJob) (cert_op sign_op : Bool) (meta : List (Text × Text))
      → IsAgreed j.sign_options
      → IsLawful j
      → IsLawful (record j { cert_op = cert_op; sign_op = sign_op; sign_meta = meta })
  between-IsLawful j cert_op sign_op meta agreed law = record {
    kept = law.kept;
    on = law.on;
    settled = λ waits. agreed;
    picked = law.picked;
    meant = law.meant;
  }

  pub outcome-said : (r : OperationReport) → is_empty (outcome_text texts r) ≡ false
  outcome-said r =
      for_outcome-spoken texts spoken r.error_code r.call_error r.message_key r.message_fallback

  pick_certificate-IsLawful :
      (r : OperationReport) (signing : List CertificateInfo) (j : SignJob)
      → In (certificates_finished r) events
      → is_done r.status ≡ true
      → signing_capable r.certificates ≡ signing
      → IsAgreed j.sign_options
      → IsLawful j
      → IsLawful (pick_certificate texts signing j)
  unfolding pick_certificate
  pick_certificate-IsLawful r [] j here ok e agreed law = fail-IsLawful _ j (said _) law
  pick_certificate-IsLawful r (c ∷ []) j here ok e agreed law =
      queue-IsLawful (some c.id) j (λ i same. ((r, here, ok, inl (c, e, ground arith)), agreed)) law
  pick_certificate-IsLawful r (c1 ∷ c2 ∷ more) j here ok e agreed law =
      queue-IsLawful (chosen j.chooser (c1 ∷ c2 ∷ more)) j
        (λ i same.
          let (ask, heard, answer) = chosen-asked j.chooser (c1 ∷ c2 ∷ more) i same in
          (
            (r, here, ok, inr (ask, rw e (omega arith), sym law.kept.3 ∙ heard, rw e answer)),
            agreed,
          ))
        law

  pub certificates-IsLawful :
      (r : OperationReport) (j : SignJob)
      → In (certificates_finished r) events
      → IsLawful j
      → IsLawful (on_certificates_finished texts r j)
  unfolding on_certificates_finished
  certificates-IsLawful r j here law =
      let over = record j { cert_op = false } in
      pick IsLawful (not j.cert_op) (λ late. law)
        (λ mine.
          let agreed = law.settled (inl (ground arith)) in
          let kept = between-IsLawful j false j.sign_op j.sign_meta agreed law in
          pick IsLawful (is_done r.status)
            (λ ok.
              pick_certificate-IsLawful r (signing_capable r.certificates) over here ok refl agreed
                kept)
            (λ bad. fail-IsLawful (outcome_text texts r) over (outcome-said r) kept))
