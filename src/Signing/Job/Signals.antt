-- ===== src/Signing/Job/Signals.antt =====
-- shared/signing/SignJob.cpp: the job ends once, and what it asks and tells is what it was made for.
use libre_kde.Base.{
  ℕ, ◌+◌, ◌≤◌, false, not, Text, List, [], ◌∷◌, Option, none, some, if◌then◌else◌, ◌≡◌, refl, inl,
  inr, arith, pick, Option-cases,
}
use libre_kde.Shared.ErrorText.{Texts}
use libre_kde.Shared.Registry.{AgentCard}
use libre_kde.Kio.Source.{CertificateInfo}
use libre_kde.Signing.Format.{choice_of, to_sign_options}
use libre_kde.Signing.Job.{
  Desk, Written, written, unwritten, Signal, succeeded, failed, SignJob, new_job, fail, mime_of,
  read_with, start_on, start, signing_capable, chosen, queue, pick_certificate, is_done,
  outcome_text, on_certificates_finished, sign_on, begin_sign, conclude, store, on_sign_finished,
  Event, started, turn, card_deleted, certificates_finished, sign_finished, take_turn, step, run,
}

abbrev pub is_terminal : Signal → ℕ
is_terminal (succeeded path) = 1
is_terminal (failed message) = 1
is_terminal _ = 0

-- How many times the job has told its end.
abbrev pub endings : List Signal → ℕ
endings [] = 0
endings (s ∷ log) = is_terminal s + endings log

abbrev pub IsOnce : SignJob → Type 0
IsOnce j = endings j.log ≡ (if j.emitted then 1 else 0)

fail-IsOnce : (message : Text) (j : SignJob) → IsOnce j → IsOnce (fail message j)
unfolding fail
fail-IsOnce message j once = ground arith

start_on-IsOnce :
    (texts : Texts) (desk : Desk) (card : Option AgentCard) (j : SignJob)
    → IsOnce j
    → IsOnce (start_on texts desk card j)
unfolding start_on read_with fail
start_on-IsOnce texts desk none j once = ground arith
start_on-IsOnce texts desk (some card) j once =
    elim (Option-cases (to_sign_options (choice_of (mime_of desk j) j.format_override))) [
      | inl e ↦ ground arith
      | inr (o, e) ↦ ground arith
    ]

pick_certificate-IsOnce :
    (texts : Texts) (signing : List CertificateInfo) (j : SignJob)
    → IsOnce j
    → IsOnce (pick_certificate texts signing j)
unfolding pick_certificate queue fail
pick_certificate-IsOnce texts [] j once = ground arith
pick_certificate-IsOnce texts (c ∷ []) j once = ground arith
pick_certificate-IsOnce texts (c1 ∷ c2 ∷ certs) j once =
    elim (Option-cases (chosen j.chooser (c1 ∷ c2 ∷ certs))) [
      | inl e ↦ ground arith
      | inr (id, e) ↦ ground arith
    ]

conclude-IsOnce :
    (texts : Texts) (result : Written) (j : SignJob) → IsOnce j → IsOnce (conclude texts result j)
unfolding conclude fail
conclude-IsOnce texts (written path) j once = ground arith
conclude-IsOnce texts (unwritten error name) j once = ground arith

sign_on-IsOnce :
    (texts : Texts) (desk : Desk) (card : Option AgentCard) (id : Text) (j : SignJob)
    → IsOnce j
    → IsOnce (sign_on texts desk card id j)
unfolding sign_on fail
sign_on-IsOnce texts desk none id j once = ground arith
sign_on-IsOnce texts desk (some card) id j once = ground arith

store-IsOnce :
    (texts : Texts) (desk : Desk) (artifact : Option ℕ) (j : SignJob)
    → IsOnce j
    → IsOnce (store texts desk artifact j)
unfolding store
store-IsOnce texts desk none j once = fail-IsOnce _ j once
store-IsOnce texts desk (some a) j once = conclude-IsOnce texts _ j once

take_turn-IsOnce :
    (texts : Texts) (desk : Desk) (queued : Option Text) (j : SignJob)
    → IsOnce j
    → IsOnce (take_turn texts desk queued j)
unfolding take_turn begin_sign
take_turn-IsOnce texts desk none j once = once
take_turn-IsOnce texts desk (some id) j once =
    sign_on-IsOnce texts desk j.card id (record j { queued = none }) once

step-IsOnce :
    (texts : Texts) (desk : Desk) (j : SignJob) (event : Event)
    → IsOnce j
    → IsOnce (step texts desk j event)
unfolding step start on_certificates_finished on_sign_finished
step-IsOnce texts desk j started once = start_on-IsOnce texts desk j.card j once
step-IsOnce texts desk j turn once = take_turn-IsOnce texts desk j.queued j once
step-IsOnce texts desk j card_deleted once = once
step-IsOnce texts desk j (certificates_finished r) once =
    pick IsOnce (not j.cert_op) (λ late. once)
      (λ mine.
        pick IsOnce (is_done r.status)
          (λ ok.
            pick_certificate-IsOnce texts (signing_capable r.certificates)
              (record j { cert_op = false }) once)
          (λ bad. fail-IsOnce (outcome_text texts r) (record j { cert_op = false }) once))
step-IsOnce texts desk j (sign_finished r) once =
    pick IsOnce (not j.sign_op) (λ late. once)
      (λ mine.
        pick IsOnce (is_done r.status)
          (λ ok.
            store-IsOnce texts desk r.artifact
              (record j { sign_op = false; sign_meta = r.sign_meta }) once)
          (λ bad. fail-IsOnce (outcome_text texts r) (record j { sign_op = false }) once))

pub run-IsOnce :
    (texts : Texts) (desk : Desk) (j : SignJob) (events : List Event)
    → IsOnce j
    → IsOnce (run texts desk j events)
unfolding run
run-IsOnce texts desk j [] once = once
run-IsOnce texts desk j (e ∷ events) once =
    run-IsOnce texts desk (step texts desk j e) events (step-IsOnce texts desk j e once)

-- Whatever the events are, a job tells its end once or not yet.
pub run-endings :
    (texts : Texts) (desk : Desk) (card : Option AgentCard) (path mime override : Text)
    (chooser : Option (List CertificateInfo → Option Text)) (events : List Event)
    → endings (run texts desk (new_job desk card path mime override chooser) events).log ≤ 1
unfolding new_job
run-endings texts desk card path mime override chooser events =
    ground (arith, run-IsOnce texts desk (new_job desk card path mime override chooser) events refl)
