-- ===== src/Purpose/Meant.antt =====
-- components/purpose/librescrs_sign_purpose.cpp: what the share action signs is what was shared, with
-- the card that was chosen.
use libre_kde.Base.{
  ℕ, false, Text, is_empty, List, [], ◌∷◌, Option, none, some, All, In, ◌≡◌, refl, sym, ap, ◌∙◌,
  subst, inl, inr, ◌⊎◌, arith,
}
use libre_kde.Shared.ErrorText.Floor.{IsSpoken}
use libre_kde.Shared.Registry.{AgentCard, AgentClient}
use libre_kde.Signing.Seams.{widget_cert_chooser, widget_cert_chooser-In}
use libre_kde.Signing.Job
use libre_kde.Signing.Job.{
  Desk, SignJob, Event, started, certificates_finished, OperationReport, signing_capable, Signal,
  read_certificates, sign, succeeded, failed, written,
}
use libre_kde.Kio.Source.{CertificateInfo}
use libre_kde.Signing.Format.{SignOptions}
use libre_kde.Signing.Job.Lawful.{IsMeant, IsPicked}
use libre_kde.Signing.Job.Lawful.Runs.{run-IsMeant}
use libre_kde.Purpose.{Share, Setting, SignPurposeJob, signing, sign_job, start, run}
use libre_kde.Purpose.Begun.{IsRefused, IsOf, start-Starts, run-ended, run-signing}

asked_alike :
    {f g : List CertificateInfo → Option Text}
    → some f ≡ some g
    → (cs : List CertificateInfo) → f cs ≡ g cs
asked_alike e cs = ap (λ o. elim o [ none ↦ none | some ask ↦ ask cs ]) e

-- What the signing job may ask and tell: of the card, the file and the certificates that were read.
abbrev pub IsFair : Setting → AgentCard → Text → List Event → Signal → Type 0
IsFair s card path events (read_certificates object) = object ≡ card.object
IsFair s card path events (sign object id input options) =
    (object ≡ card.object)
    × (input ≡ path)
    × ((r : OperationReport) × (c : CertificateInfo) × In (certificates_finished r) events
        × In c (signing_capable r.certificates)
        × (c.id ≡ id))
IsFair s card path events (succeeded target) =
    (artifact : ℕ) × (options : SignOptions) × (s.desk.write_signed_file artifact path
        options.format options.packaging
      ≡ written target)
IsFair s card path events (failed message) = is_empty message ≡ false

module _ (s : Setting) (spoken : IsSpoken s.texts) (share : Share) (card : AgentCard) (path : Text)
    (events : List Event) where
  abbrev Meant : Signal → Type 0
  Meant =
      IsMeant s.texts spoken s.desk (some card) path share.mime_type []
        (some (widget_cert_chooser s.texts s.short_date s.cert_dialog)) (started ∷ events)

  picked_of :
      (id : Text)
      → IsPicked
          (started ∷ events)
          (some (widget_cert_chooser s.texts s.short_date s.cert_dialog))
          id
      → (r : OperationReport) × (c : CertificateInfo) × In (certificates_finished r) events
        × In c (signing_capable r.certificates)
        × (c.id ≡ id)
  picked_of id (r, inl e, ok, picked) = absurd (ground arith)
  picked_of id (r, inr here, ok, inl (c, lone, e)) =
      (r, c, here, subst (In c) (sym lone) (inl refl), sym e)
  picked_of id (r, inr here, ok, inr (ask, many, e, answer)) =
      let same : widget_cert_chooser s.texts s.short_date s.cert_dialog
            (signing_capable r.certificates)
          ≡ ask (signing_capable r.certificates) =
        asked_alike e (signing_capable r.certificates) in
      let (c, offered, named) =
        widget_cert_chooser-In s.texts s.short_date s.cert_dialog (signing_capable r.certificates)
          id (same ∙ answer) in
      (r, c, here, offered, named)

  Meant-IsFair : (signal : Signal) → Meant signal → IsFair s card path events signal
  Meant-IsFair (read_certificates object) (c, e, f) = ground arith
  Meant-IsFair (sign object id input options) ((c, e, f), same, agreed, picked) =
      (ground arith, same, picked_of id picked)
  Meant-IsFair (succeeded target) (r, artifact, options, here, ok, took, agreed, wrote) =
      (artifact, options, wrote)
  Meant-IsFair (failed message) said = said

  All-IsFair : (log : List Signal) → All Meant log → All (IsFair s card path events) log
  All-IsFair [] all = tt
  All-IsFair (signal ∷ log) all = (Meant-IsFair signal all.0, All-IsFair log all.1)

-- What becomes of a share: it is refused, or the job signs.
abbrev pub IsShared : Setting → Share → AgentClient → List Event → SignPurposeJob → Type 0
IsShared s share client events p =
    IsRefused s client p
    ⊎ ((path : Text) × (card : AgentCard) × (j : SignJob) × IsOf s share client path card
        × (p ≡ signing j)
        × All (IsFair s card path events) j.log)

-- With a catalogue that has no empty text, and whatever the user does in the dialogs and the loop delivers: a
-- share is refused in words, as cancelled only where the choice of the card was; or it has one url, of
-- a local file, and the card is the one that was chosen, and can sign; then each reading and each signing
-- is on that card, each signing is of that file with a certificate of those that can sign of a reading, each
-- success names the file that an artifact for that path was written to, and each failure has a sentence.
pub run-IsShared :
    (s : Setting) (share : Share) (client : AgentClient) (events : List Event)
    → IsSpoken s.texts
    → IsShared s share client events (run s (start s share client) events)
unfolding start Job.run Job.step
run-IsShared s share client events spoken = elim (start-Starts s spoken share client) [
  | inl (kind, message, e, said, dropped) ↦
      inl (kind, message, ap (λ p. run s p events) e ∙ run-ended s _ events, said, dropped)
  | inr (path, card, of, e) ↦ inr (
    path,
    card,
    Job.run s.texts s.desk (sign_job s share card path) (started ∷ events),
    of,
    ap (λ p. run s p events) e ∙ run-signing s _ events,
    All-IsFair s spoken share card path events _ (
        run-IsMeant s.texts spoken s.desk (some card) path share.mime_type []
          (some (widget_cert_chooser s.texts s.short_date s.cert_dialog)) (started ∷ events)),
  )
]
