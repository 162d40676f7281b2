-- ===== src/Purpose/Ended.antt =====
-- components/purpose/librescrs_sign_purpose.cpp: a share action ends, and once.
use libre_kde.Base.{Bool, List, [], ◌∷◌, length, drop, ◌≡◌, refl, ap, ◌∙◌, inl, inr, arith, some}
use libre_kde.Shared.ErrorText.Floor.{IsSpoken}
use libre_kde.Shared.Registry.{AgentClient}
use libre_kde.Signing.Seams.{widget_cert_chooser}
use libre_kde.Signing.Job
use libre_kde.Signing.Job.{
  Signal, read_certificates, sign, succeeded, failed, OperationReport, started,
}
use libre_kde.Signing.Job.Signals.{endings}
use libre_kde.Signing.Job.Progress.{flow, flow-endings}
use libre_kde.Purpose.{Share, Setting, start, run, relayed, results}
use libre_kde.Purpose.Begun.{start-Starts, run-ended, run-signing}

length-relayed : (s : Setting) (log : List Signal) → length (relayed s log) ≡ endings log
unfolding relayed
length-relayed s [] = refl
length-relayed s (read_certificates card ∷ log) = omega (arith, length-relayed s log)
length-relayed s (sign card id path options ∷ log) = omega (arith, length-relayed s log)
length-relayed s (succeeded path ∷ log) = omega (arith, length-relayed s log)
length-relayed s (failed message ∷ log) = omega (arith, length-relayed s log)

-- A share whose certificate reading, turn and signing are delivered as far as its job has asked for them,
-- whether or not the card goes in between and whatever the operations report, has exactly one result,
-- given a catalogue with no empty text.
pub run-results :
    (s : Setting) (share : Share) (client : AgentClient) (removed : Bool)
    (certs signed : OperationReport)
    → IsSpoken s.texts
    → length (results s (run s (start s share client) (drop 1 (flow removed certs signed)))) ≡ 1
unfolding results Job.run Job.step
run-results s share client removed certs signed spoken =
    let events = drop 1 (flow removed certs signed) in
    elim (start-Starts s spoken share client) [
      | inl (kind, message, e, said, dropped) ↦
          ap (λ p. length (results s (run s p events))) e
          ∙ ap (λ p. length (results s p)) (run-ended s _ events)
      | inr (path, card, of, e) ↦
          ap (λ p. length (results s (run s p events))) e
          ∙ ap (λ p. length (results s p)) (run-signing s _ events)
          ∙ length-relayed s _
          ∙ flow-endings s.texts s.desk (some card) path share.mime_type []
              (some (widget_cert_chooser s.texts s.short_date s.cert_dialog)) removed certs signed
    ]
