-- ===== src/Plasmoid/Signing/Told.antt =====
-- components/plasmoid/src/SmartCardHandler.cpp: what a widget shows of a signing comes from a signing of the
-- displayed reader with the card that is bound.
use libre_kde.Base.{
  ℕ, Bool, true, false, Text, List, [], ◌∷◌, Option, none, some, ◌≡◌, refl, sym, ◌∙◌, subst, inl,
  inr, In, ==_iff, arith, pick,
}
use libre_kde.Plasmoid.SignOutcome.{SignOutcome}
use libre_kde.Plasmoid.Signing.{
  ReaderSignState, Signer, Begun, Surfaces, is_live, publish_sign_surfaces, retarget, surfaces,
  surfaces_of, active_sign_state, of_card, same_ref,
}
use libre_kde.Plasmoid.Signing.Slots.{
  note_pick, on_phase, on_succeeded, on_failed, dismiss_sign_result,
}
use libre_kde.Plasmoid.Signing.Machine.{
  Event, registry, card_deleted, sign_pressed, dismissed, chose, phase_moved, succeeded, failed,
  delete_card, step, run, new_signer,
}
use libre_kde.Plasmoid.Signing.Mirror.{IsMirrored, step-IsMirrored, new_signer-IsMirrored}
use libre_kde.Plasmoid.Signing.Origin.{
  Owner, Ended, IsTraced, Traced, put-AllTraced, prune-AllTraced, forget-AllTraced,
  sign_file-Traced, note_pick-Traced, phase_on-Traced, dismiss_on-Traced, job-Owner, on_link-Traced,
}

module _ (events : List Event) where
  step-Traced :
      (local_file : Text → Option Text) (s : Signer) (e : Event)
      → In e events
      → IsMirrored s
      → Traced events s
      → Traced events (step local_file s e)
  unfolding step retarget delete_card on_phase dismiss_sign_result on_succeeded on_failed
      publish_sign_surfaces
  step-Traced local_file s (registry roster reader card) here m t =
      prune-AllTraced events s.begun s.sign_states roster t
  step-Traced local_file s (card_deleted c) here m t =
      forget-AllTraced events c s.begun s.sign_states t
  step-Traced local_file s (sign_pressed url) here m t = sign_file-Traced events local_file url s t
  step-Traced local_file s dismissed here m t =
      dismiss_on-Traced events (s.sign_states s.reader_name) s refl t
  step-Traced local_file s (chose j candidates) here m t =
      on_link-Traced events (s.links j) (λ reader. note_pick reader candidates s) s t
        (λ reader mine. note_pick-Traced events reader candidates s t)
  step-Traced local_file s (phase_moved j phase) here m t =
      on_link-Traced events (s.links j) (λ reader. on_phase reader phase s) s t
        (λ reader mine. phase_on-Traced events reader phase (s.sign_states reader) s refl t)
  step-Traced local_file s (succeeded j path level) here m t =
      on_link-Traced events (s.links j) (λ reader. on_succeeded j reader path level s) s t
        λ reader mine.
          let own =
            job-Owner events s reader j (s.sign_states reader) refl (m.linked j reader mine) t in
          put-AllTraced events s.begun s.sign_states reader _
            (record { running = λ i e. absurd (ground arith); ended = (j, own, here) }) t
  step-Traced local_file s (failed j message) here m t =
      on_link-Traced events (s.links j) (λ reader. on_failed j reader message s) s t
        λ reader mine.
          let own =
            job-Owner events s reader j (s.sign_states reader) refl (m.linked j reader mine) t in
          put-AllTraced events s.begun s.sign_states reader _
            (record { running = λ i e. absurd (ground arith); ended = (j, own, here) }) t

  run-Traced :
      (local_file : Text → Option Text) (s : Signer) (rest : List Event)
      → ((e : Event) → In e rest → In e events)
      → IsMirrored s
      → Traced events s
      → Traced events (run local_file s rest)
  unfolding run
  run-Traced local_file s [] all m t = t
  run-Traced local_file s (e ∷ rest) all m t =
      run-Traced local_file (step local_file s e) rest (λ f here. all f (inr here))
        (step-IsMirrored local_file s e m) (step-Traced local_file s e (all e (inl refl)) m t)

  -- A job that was begun on the reader with the card.
  abbrev pub Source : List Begun → Text → ℕ → Begun → Type 0
  Source begun reader card b = In b begun × (b.reader ≡ reader) × (b.card ≡ some card)

  -- What is shown of an end: a job of the reader and the card, and the end that it told.
  abbrev pub IsToldEnd : List Begun → Text → ℕ → Surfaces → SignOutcome → Type 0
  IsToldEnd begun reader card shown SignOutcome.none = Unit {0}
  IsToldEnd begun reader card shown SignOutcome.succeeded =
      (b : Begun) × Source begun reader card b
      × In (succeeded b.job shown.output_path shown.level) events
  IsToldEnd begun reader card shown SignOutcome.failed =
      (b : Begun) × Source begun reader card b × In (failed b.job shown.message) events

  abbrev pub IsToldRun : List Begun → Text → ℕ → Bool → Type 0
  IsToldRun begun reader card false = Unit {0}
  IsToldRun begun reader card true = (b : Begun) × Source begun reader card b

  abbrev pub IsTold : List Begun → Text → ℕ → Surfaces → Type 0
  IsTold begun reader card shown =
      IsToldEnd begun reader card shown shown.outcome × IsToldRun begun reader card shown.busy

  -- An owner's card is the bound one.
  bound_card :
      (begun : List Begun) (reader : Text) (card : Option ℕ) (job c : ℕ)
      → Owner begun reader card job
      → card ≡ some c
      → (b : Begun) × Source begun reader c b × (b.job ≡ job)
  bound_card begun reader card job c (b, here, mine, there, inl same) e =
      (b, (here, there, sym same ∙ e), mine)
  bound_card begun reader card job c (b, here, mine, there, inr gone) e = absurd (cc)

  module _ (begun : List Begun) (reader : Text) (c : ℕ) (entry : ReaderSignState)
      (e : entry.card ≡ some c) (t : IsTraced events begun reader entry) where
    told_end :
        (outcome : SignOutcome)
        → Ended events begun reader entry outcome
        → IsToldEnd begun reader c (surfaces_of (some entry)) outcome
    told_end SignOutcome.none end = tt
    told_end SignOutcome.succeeded (j, own, said) =
        let (b, source, mine) = bound_card begun reader entry.card j c own e in
        (
          b,
          source,
          subst (λ i. In (succeeded i entry.output_path entry.level) events) (sym mine) said,
        )
    told_end SignOutcome.failed (j, own, said) =
        let (b, source, mine) = bound_card begun reader entry.card j c own e in
        (b, source, subst (λ i. In (failed i entry.message) events) (sym mine) said)

    told_run : (job : Option ℕ) → entry.job ≡ job → IsToldRun begun reader c (is_live job)
    told_run none idle = tt
    told_run (some j) busy =
        let (b, source, mine) = bound_card begun reader entry.card j c (t.running j busy) e in
        (b, source)

    entry-IsTold : IsTold begun reader c (surfaces_of (some entry))
    entry-IsTold = (told_end entry.outcome t.ended, told_run entry.job refl)

  same_ref_eq : (card : Option ℕ) (c : ℕ) → same_ref card (some c) ≡ true → card ≡ some c
  same_ref_eq none c h = absurd (ground arith)
  same_ref_eq (some d) c h = ground (arith, ==_iff d c)

  shown-IsTold :
      (begun : List Begun) (reader : Text) (c : ℕ) (entry : Option ReaderSignState)
      → ((f : ReaderSignState) → entry ≡ some f → IsTraced events begun reader f)
      → IsTold begun reader c (surfaces_of (of_card (some c) entry))
  shown-IsTold begun reader c none t = (tt, tt)
  shown-IsTold begun reader c (some entry) t =
      pick (λ (f : Option ReaderSignState). IsTold begun reader c (surfaces_of f))
        (same_ref entry.card (some c))
        (λ same. entry-IsTold begun reader c entry (same_ref_eq entry.card c same) (t entry refl))
        (λ other. (tt, tt))

  signer-IsTold :
      (s : Signer) (card : Option ℕ) (c : ℕ)
      → s.card ≡ card
      → card ≡ some c
      → Traced events s
      → IsTold s.begun s.reader_name c (surfaces s)
  unfolding surfaces active_sign_state
  signer-IsTold s card c at e t =
      rw (at ∙ e)
        (shown-IsTold s.begun s.reader_name c (s.sign_states s.reader_name) (t s.reader_name))

  -- However the events follow one another, while a card is bound: a signing that is shown as running was
  -- begun on the displayed reader with that card, and so was the one whose end is shown, with the file
  -- and the level, or the message, that its job told.
  pub run-IsTold :
      (local_file : Text → Option Text) (c : ℕ)
      → (run local_file new_signer events).card ≡ some c
      → IsTold
          (run local_file new_signer events).begun
          (run local_file new_signer events).reader_name
          c
          (surfaces (run local_file new_signer events))
  run-IsTold local_file c e = signer-IsTold (run local_file new_signer events) (some c) c e refl (
      run-Traced local_file new_signer events (λ f here. here) new_signer-IsMirrored
        (λ r entry h. absurd (ground arith)))
