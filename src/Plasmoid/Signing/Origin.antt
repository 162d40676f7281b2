-- ===== src/Plasmoid/Signing/Origin.antt =====
-- components/plasmoid/src/SmartCardHandler.cpp: where an entry's job and end come from.
use libre_kde.Base.{
  ℕ, Bool, Text, text_eq, text_eq_iff, List, [], ◌∷◌, Option, none, some, ◌≡◌, refl, sym, subst,
  ◌⊎◌, inl, inr, In, ◌==◌, arith, Bool-cases, pick,
}
use libre_kde.Base.Groups.{contains}
use libre_kde.Kio.Source.{CertificateInfo}
use libre_kde.Plasmoid.SignOutcome.{SignOutcome}
use libre_kde.Plasmoid.Signing.{
  ReaderSignState, Signer, Begun, is_live, kept, prune, put, or_blank, publish_sign_surfaces,
}
use libre_kde.Plasmoid.Signing.Slots.{
  job_of, sign_file, note_pick, phase_on, dismiss_on, undone, is_none, label_of,
}
use libre_kde.Plasmoid.Signing.Machine.{Event, succeeded, failed, without, forget_card, on_link}

-- The job was begun on the reader, with the card unless that is gone.
abbrev pub Owner : List Begun → Text → Option ℕ → ℕ → Type 0
Owner begun reader card job =
    (b : Begun) × In b begun
    × (b.job ≡ job)
    × (b.reader ≡ reader)
    × ((card ≡ b.card) ⊎ (card ≡ none))

module _ (events : List Event) where
  abbrev pub Ended : List Begun → Text → ReaderSignState → SignOutcome → Type 0
  Ended begun reader entry SignOutcome.none = Unit {0}
  Ended begun reader entry SignOutcome.succeeded =
      (j : ℕ) × Owner begun reader entry.card j
      × In (succeeded j entry.output_path entry.level) events
  Ended begun reader entry SignOutcome.failed =
      (j : ℕ) × Owner begun reader entry.card j × In (failed j entry.message) events

  pub record IsTraced (begun : List Begun) (reader : Text) (entry : ReaderSignState) : Type 0 where
    pub running : (j : ℕ) → entry.job ≡ some j → Owner begun reader entry.card j
    pub ended : Ended begun reader entry entry.outcome

  abbrev pub AllTraced : List Begun → (Text → Option ReaderSignState) → Type 0
  AllTraced begun states =
      (r : Text) (entry : ReaderSignState) → states r ≡ some entry → IsTraced begun r entry

  pub put-AllTraced :
      (begun : List Begun) (states : Text → Option ReaderSignState) (reader : Text)
      (entry : ReaderSignState)
      → IsTraced begun reader entry
      → AllTraced begun states
      → AllTraced begun (put reader entry states)
  put-AllTraced begun states reader entry new old r e h = elim (Bool-cases (text_eq reader r)) [
    | inl same ↦
        subst (λ f. IsTraced begun r f) (ground arith)
          (subst (λ q. IsTraced begun q entry) ((text_eq_iff reader r).0 same) new)
    | inr other ↦ old r e (ground arith)
  ]

  pub prune-AllTraced :
      (begun : List Begun) (states : Text → Option ReaderSignState) (roster : List Text)
      → AllTraced begun states
      → AllTraced begun (prune roster states)
  unfolding prune
  prune-AllTraced begun states roster old r e h = old r e (was (contains r roster) (states r) e h)
    where
      was :
          (known : Bool) (entry : Option ReaderSignState) (e : ReaderSignState)
          → kept known entry ≡ some e
          → entry ≡ some e
      was known none e h = absurd (ground arith)
      was known (some entry) e h = ground arith

  -- A card that is gone is no other's.
  Owner-without :
      (c : ℕ) (begun : List Begun) (reader : Text) (card : Option ℕ) (job : ℕ)
      → Owner begun reader card job
      → Owner begun reader (without c card) job
  Owner-without c begun reader none job (b, here, mine, there, own) =
      (b, here, mine, there, inr refl)
  Owner-without c begun reader (some d) job (b, here, mine, there, own) = (
    b,
    here,
    mine,
    there,
    elim (Bool-cases (c == d)) [ inl gone ↦ inr (rw gone refl) | inr other ↦ rw other own ],
  )

  Ended-without :
      (c : ℕ) (begun : List Begun) (reader : Text) (entry : ReaderSignState) (outcome : SignOutcome)
      → Ended begun reader entry outcome
      → Ended begun reader (record entry { card = without c entry.card }) outcome
  Ended-without c begun reader entry SignOutcome.none end = tt
  Ended-without c begun reader entry SignOutcome.succeeded (j, own, here) =
      (j, Owner-without c begun reader entry.card j own, here)
  Ended-without c begun reader entry SignOutcome.failed (j, own, here) =
      (j, Owner-without c begun reader entry.card j own, here)

  pub forget-AllTraced :
      (c : ℕ) (begun : List Begun) (states : Text → Option ReaderSignState)
      → AllTraced begun states
      → AllTraced begun (λ r. forget_card c (states r))
  forget-AllTraced c begun states old r e h = was (states r) refl h
    where
      was :
          (entry : Option ReaderSignState)
          → states r ≡ entry
          → forget_card c entry ≡ some e
          → IsTraced begun r e
      was none at h = absurd (ground arith)
      was (some entry) at h =
          let traced = old r entry at in
          let gone : ReaderSignState = record entry { card = without c entry.card } in
          let same : gone ≡ e = ground arith in
          subst (λ f. IsTraced begun r f) same
            (record {
              running = λ j mine. Owner-without c begun r entry.card j (traced.running j mine);
              ended = Ended-without c begun r entry entry.outcome traced.ended;
            })

  -- An entry that keeps what it has of its job and its end, or has no end.
  module _ (begun : List Begun) (reader : Text) where
    blank-IsTraced :
        (entry : ReaderSignState)
        → entry.job ≡ none
        → entry.outcome ≡ SignOutcome.none
        → IsTraced begun reader entry
    blank-IsTraced entry idle nothing = record {
      running = λ j e. absurd (ground arith);
      ended = subst (Ended begun reader entry) (sym nothing) tt;
    }

    labelled-IsTraced :
        (entry : ReaderSignState) (label : Text) (phase : ℕ)
        → IsTraced begun reader entry
        → IsTraced begun reader (record entry { cert_label = label; phase = phase })
    labelled-IsTraced entry label phase t = record {
      running = t.running;
      ended = same entry.outcome t.ended;
    }
      where
        same :
            (outcome : SignOutcome)
            → Ended begun reader entry outcome
            → Ended begun reader (record entry { cert_label = label; phase = phase }) outcome
        same SignOutcome.none end = end
        same SignOutcome.succeeded end = end
        same SignOutcome.failed end = end

    undone-IsTraced :
        (entry : ReaderSignState)
        → IsTraced begun reader entry
        → IsTraced begun reader (undone entry)
    undone-IsTraced entry t = record { running = t.running; ended = tt }

  Owner-more :
      (b : Begun) (begun : List Begun) (reader : Text) (card : Option ℕ) (job : ℕ)
      → Owner begun reader card job
      → Owner (b ∷ begun) reader card job
  Owner-more b begun reader card job (o, here, mine, there, own) = (o, inr here, mine, there, own)

  Ended-more :
      (b : Begun) (begun : List Begun) (reader : Text) (entry : ReaderSignState)
      (outcome : SignOutcome)
      → Ended begun reader entry outcome
      → Ended (b ∷ begun) reader entry outcome
  Ended-more b begun reader entry SignOutcome.none end = tt
  Ended-more b begun reader entry SignOutcome.succeeded (j, own, said) =
      (j, Owner-more b begun reader entry.card j own, said)
  Ended-more b begun reader entry SignOutcome.failed (j, own, said) =
      (j, Owner-more b begun reader entry.card j own, said)

  IsTraced-more :
      (b : Begun) (begun : List Begun) (reader : Text) (entry : ReaderSignState)
      → IsTraced begun reader entry
      → IsTraced (b ∷ begun) reader entry
  IsTraced-more b begun reader entry t = record {
    running = λ j mine. Owner-more b begun reader entry.card j (t.running j mine);
    ended = Ended-more b begun reader entry entry.outcome t.ended;
  }

  abbrev pub Traced : Signer → Type 0
  Traced s = AllTraced s.begun s.sign_states

  pub sign_file-Traced :
      (local_file : Text → Option Text) (url : Text) (s : Signer)
      → Traced s
      → Traced (sign_file local_file url s)
  unfolding sign_file publish_sign_surfaces
  sign_file-Traced local_file url s t =
      pick Traced (is_live (job_of (s.sign_states s.reader_name))) (λ busy. t)
        (λ idle.
          put-AllTraced _ s.sign_states s.reader_name _
            (record { running = λ j e. (_, inl refl, ground arith, refl, inl refl); ended = tt })
            (λ r e h. IsTraced-more _ s.begun r e (t r e h)))

  pub note_pick-Traced :
      (reader : Text) (candidates : List CertificateInfo) (s : Signer)
      → Traced s
      → Traced (note_pick reader candidates s)
  unfolding note_pick
  note_pick-Traced reader [] s t = t
  note_pick-Traced reader (c ∷ more) s t =
      put-AllTraced s.begun s.sign_states reader _ (was (s.sign_states reader) refl) t
    where
      was :
          (entry : Option ReaderSignState)
          → s.sign_states reader ≡ entry
          → IsTraced s.begun reader (record (or_blank entry) { cert_label = label_of c })
      was none e = blank-IsTraced s.begun reader _ refl refl
      was (some entry) e =
          labelled-IsTraced s.begun reader entry (label_of c) entry.phase (t reader entry e)

  pub phase_on-Traced :
      (reader : Text) (phase : ℕ) (entry : Option ReaderSignState) (s : Signer)
      → s.sign_states reader ≡ entry
      → Traced s
      → Traced (phase_on reader phase entry s)
  unfolding phase_on publish_sign_surfaces
  phase_on-Traced reader phase none s e t = t
  phase_on-Traced reader phase (some entry) s e t =
      put-AllTraced s.begun s.sign_states reader _
        (labelled-IsTraced s.begun reader entry entry.cert_label phase (t reader entry e)) t

  pub dismiss_on-Traced :
      (entry : Option ReaderSignState) (s : Signer)
      → s.sign_states s.reader_name ≡ entry
      → Traced s
      → Traced (dismiss_on entry s)
  unfolding dismiss_on publish_sign_surfaces
  dismiss_on-Traced none s e t = t
  dismiss_on-Traced (some entry) s e t =
      pick Traced (is_none entry.outcome) (λ nothing. t)
        (λ something.
          put-AllTraced s.begun s.sign_states s.reader_name _
            (undone-IsTraced s.begun s.reader_name entry (t s.reader_name entry e)) t)

  -- The job that an entry runs has the entry's reader and card.
  pub job-Owner :
      (s : Signer) (reader : Text) (j : ℕ) (entry : Option ReaderSignState)
      → s.sign_states reader ≡ entry
      → job_of entry ≡ some j
      → Traced s
      → Owner s.begun reader (or_blank entry).card j
  job-Owner s reader j none at mine t = absurd (ground arith)
  job-Owner s reader j (some entry) at mine t = (t reader entry at).running j mine

  pub on_link-Traced :
      (link : Option Text) (slot : Text → Signer) (s : Signer)
      → Traced s
      → ((reader : Text) → link ≡ some reader → Traced (slot reader))
      → Traced (on_link link slot s)
  on_link-Traced none slot s t h = t
  on_link-Traced (some reader) slot s t h = h reader refl
