-- ===== src/Signing/Job/Progress.antt =====
-- shared/signing/SignJob.cpp: a job whose operations end comes to its end.
use libre_kde.Base.{
  ℕ, Bool, true, false, not, Text, List, [], ◌∷◌, Option, none, some, if◌then◌else◌, ◌≡◌, refl, ◌⊎◌,
  inl, inr, arith, pick, Option-cases,
}
use libre_kde.Shared.ErrorText.{Texts}
use libre_kde.Shared.Registry.{AgentCard}
use libre_kde.Kio.Source.{CertificateInfo}
use libre_kde.Signing.Format.{choice_of, to_sign_options}
use libre_kde.Signing.Job.{
  Desk, written, unwritten, SignJob, OperationReport, new_job, fail, mime_of, read_with, start_on,
  start, signing_capable, chosen, queue, pick_certificate, is_done, outcome_text,
  on_certificates_finished, sign_on, begin_sign, conclude, store, on_sign_finished, Event, started,
  turn, card_deleted, certificates_finished, sign_finished, take_turn, step, run,
}
use libre_kde.Signing.Job.Signals.{endings, run-IsOnce}

-- The job has ended, or is at one of the three places where it waits for the event loop.
abbrev IsEnded : SignJob → Type 0
IsEnded j = j.emitted ≡ true

abbrev AwaitsCertificates : SignJob → Type 0
AwaitsCertificates j = j.emitted ≡ true ⊎ j.cert_op ≡ true

abbrev AwaitsTurn : SignJob → Type 0
AwaitsTurn j = j.emitted ≡ true ⊎ (id : Text) × (j.queued ≡ some id)

abbrev AwaitsSignature : SignJob → Type 0
AwaitsSignature j = j.emitted ≡ true ⊎ j.sign_op ≡ true

fail-IsEnded : (message : Text) (j : SignJob) → IsEnded (fail message j)
unfolding fail
fail-IsEnded message j = ground arith

start-awaits :
    (texts : Texts) (desk : Desk) (card : Option AgentCard) (j : SignJob)
    → AwaitsCertificates (start_on texts desk card j)
unfolding start_on read_with fail
start-awaits texts desk none j = ground arith
start-awaits texts desk (some card) j =
    elim (Option-cases (to_sign_options (choice_of (mime_of desk j) j.format_override))) [
      | inl e ↦ ground arith
      | inr (o, e) ↦ ground arith
    ]

queue-awaits : (texts : Texts) (id : Option Text) (j : SignJob) → AwaitsTurn (queue texts id j)
unfolding queue fail
queue-awaits texts none j = ground arith
queue-awaits texts (some id) j = inr (id, refl)

pick_certificate-awaits :
    (texts : Texts) (signing : List CertificateInfo) (j : SignJob)
    → AwaitsTurn (pick_certificate texts signing j)
unfolding pick_certificate
pick_certificate-awaits texts [] j = inl (fail-IsEnded _ j)
pick_certificate-awaits texts (c ∷ []) j = queue-awaits texts (some c.id) j
pick_certificate-awaits texts (c1 ∷ c2 ∷ certs) j =
    queue-awaits texts (chosen j.chooser (c1 ∷ c2 ∷ certs)) j

certificates-awaits :
    (texts : Texts) (r : OperationReport) (j : SignJob)
    → AwaitsCertificates j
    → AwaitsTurn (on_certificates_finished texts r j)
unfolding on_certificates_finished
certificates-awaits texts r j before =
    pick AwaitsTurn (not j.cert_op) (λ late. ground arith)
      (λ mine.
        pick AwaitsTurn (is_done r.status)
          (λ ok.
            pick_certificate-awaits texts (signing_capable r.certificates)
              (record j { cert_op = false }))
          (λ bad. inl (fail-IsEnded (outcome_text texts r) (record j { cert_op = false }))))

sign_on-awaits :
    (texts : Texts) (desk : Desk) (card : Option AgentCard) (id : Text) (j : SignJob)
    → AwaitsSignature (sign_on texts desk card id j)
unfolding sign_on fail
sign_on-awaits texts desk none id j = ground arith
sign_on-awaits texts desk (some card) id j = ground arith

turn-awaits :
    (texts : Texts) (desk : Desk) (j : SignJob) (queued : Option Text)
    → (j.emitted ≡ true ⊎ (id : Text) × (queued ≡ some id))
    → AwaitsSignature (take_turn texts desk queued j)
unfolding take_turn begin_sign
turn-awaits texts desk j none before = ground arith
turn-awaits texts desk j (some id) before =
    sign_on-awaits texts desk j.card id (record j { queued = none })

store-IsEnded :
    (texts : Texts) (desk : Desk) (artifact : Option ℕ) (j : SignJob)
    → IsEnded (store texts desk artifact j)
unfolding store conclude fail
store-IsEnded texts desk none j = ground arith
store-IsEnded texts desk (some a) j =
    elim (desk.write_signed_file a j.input_path j.sign_options.format j.sign_options.packaging)
      as (λ w. IsEnded (conclude texts w j)) [
        | written path ↦ ground arith
        | unwritten error name ↦ ground arith
      ]

signature-IsEnded :
    (texts : Texts) (desk : Desk) (r : OperationReport) (j : SignJob)
    → AwaitsSignature j
    → IsEnded (on_sign_finished texts desk r j)
unfolding on_sign_finished
signature-IsEnded texts desk r j before =
    pick IsEnded (not j.sign_op) (λ late. ground arith)
      (λ mine.
        pick IsEnded (is_done r.status)
          (λ ok.
            store-IsEnded texts desk r.artifact
              (record j { sign_op = false; sign_meta = r.sign_meta }))
          (λ bad. fail-IsEnded (outcome_text texts r) (record j { sign_op = false })))

-- The events of one job, with the deletion of the card between the certificates and the turn, or not.
abbrev pub flow : Bool → OperationReport → OperationReport → List Event
flow removed certs signed =
    started
    ∷ certificates_finished certs
    ∷ (if removed
        then card_deleted ∷ turn ∷ sign_finished signed ∷ []
        else turn ∷ sign_finished signed ∷ [])

flow-IsEnded :
    (texts : Texts) (desk : Desk) (j : SignJob) (removed : Bool) (certs signed : OperationReport)
    → IsEnded (run texts desk j (flow removed certs signed))
unfolding run step start
flow-IsEnded texts desk j removed certs signed =
    let begun = start_on texts desk j.card j in
    let asked = on_certificates_finished texts certs begun in
    let waiting = certificates-awaits texts certs begun (start-awaits texts desk j.card j) in
    elim removed as (λ r. IsEnded (run texts desk j (flow r certs signed))) [
      | true ↦
          signature-IsEnded texts desk signed
            (take_turn texts desk asked.queued (record asked { card = none }))
            (turn-awaits texts desk (record asked { card = none }) asked.queued waiting)
      | false ↦
          signature-IsEnded texts desk signed (take_turn texts desk asked.queued asked)
            (turn-awaits texts desk asked asked.queued waiting)
    ]

-- A job that is started, and whose certificate reading, turn and signing are delivered as far as it has
-- asked for them, whether or not the card goes in between and whatever the operations report, tells
-- its end exactly once.
pub flow-endings :
    (texts : Texts) (desk : Desk) (card : Option AgentCard) (path mime override : Text)
    (chooser : Option (List CertificateInfo → Option Text)) (removed : Bool)
    (certs signed : OperationReport)
    → endings
        (run texts desk
          (new_job desk card path mime override chooser)
          (flow removed certs signed)).log
      ≡ 1
unfolding new_job
flow-endings texts desk card path mime override chooser removed certs signed =
    let job = new_job desk card path mime override chooser in
    ground (
      arith,
      run-IsOnce texts desk job (flow removed certs signed) refl,
      flow-IsEnded texts desk job removed certs signed,
    )
