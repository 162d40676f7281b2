-- ===== src/Purpose/Begun.antt =====
-- components/purpose/librescrs_sign_purpose.cpp: how `start` ends: a refusal in words, or the
-- signing job of the one shared file.
use libre_kde.Base.{
  true, false, not, Text, is_empty, List, [], ◌∷◌, Option, none, some, ◌≡◌, refl, inl, inr, ◌⊎◌,
  arith, pick,
}
use libre_kde.Shared.Agent.{pki}
use libre_kde.Shared.ErrorText.{say}
use libre_kde.Shared.ErrorText.Floor.{IsSpoken}
use libre_kde.Shared.Registry.{AgentCard, AgentClient, has_capability}
use libre_kde.Signing.Selection.Honest.{choose_signing_card-pki}
use libre_kde.Signing.Job
use libre_kde.Signing.Job.{
  Desk, SignJob, Event, started, certificates_finished, OperationReport, signing_capable, Signal,
  read_certificates, sign, succeeded, failed, written,
}
use libre_kde.Purpose.{
  Share, Setting, ErrorKind, user_defined, killed, Result, error, SignPurposeJob, ended, signing,
  sign_job, sign_with, selection, select_card, start_local, start_urls, start, step, run,
}

-- The end of `start`: an error in words, by a cancellation just where the choice of the card was cancelled;
-- or the signing job for the one shared file, which is local, on the card of the selection.
abbrev pub IsRefused : Setting → AgentClient → SignPurposeJob → Type 0
IsRefused s client p =
    (kind : ErrorKind) × (message : Text) × (p ≡ ended (error kind message))
    × (is_empty message ≡ false)
    × (kind ≡ killed → (selection s client).cancelled ≡ true)

abbrev pub IsOf : Setting → Share → AgentClient → Text → AgentCard → Type 0
IsOf s share client path card =
    (url : Text) × (share.urls ≡ url ∷ [])
    × (s.files.local_file url ≡ some path)
    × (client.is_available ≡ true)
    × ((selection s client).card ≡ some card)
    × (has_capability card pki ≡ true)

abbrev pub IsBegun : Setting → Share → AgentClient → SignPurposeJob → Type 0
IsBegun s share client p =
    (path : Text) × (card : AgentCard) × IsOf s share client path card
    × (p ≡ signing (Job.start s.texts s.desk (sign_job s share card path)))

module _ (s : Setting) (spoken : IsSpoken s.texts) (share : Share) (client : AgentClient) where
  abbrev pub Starts : SignPurposeJob → Type 0
  Starts p = IsRefused s client p ⊎ IsBegun s share client p

  refusal : (message : Text) → Starts (ended (error user_defined (say s.texts message)))
  refusal message =
      inl (user_defined, _, refl, spoken.translated message [], λ e. absurd (ground arith))

  sign_with-Starts :
      (url path : Text) (card : Option AgentCard)
      → share.urls ≡ url ∷ []
      → s.files.local_file url ≡ some path
      → client.is_available ≡ true
      → (selection s client).card ≡ card
      → Starts (sign_with s share path card)
  unfolding sign_with
  sign_with-Starts url path none one local up e = refusal _
  sign_with-Starts url path (some card) one local up e =
      inr (path, card, (url, one, local, up, e, choose_signing_card-pki client _ card e), refl)

  start_local-Starts :
      (url : Text) (local : Option Text)
      → share.urls ≡ url ∷ []
      → s.files.local_file url ≡ local
      → Starts (start_local s share client local)
  unfolding start_local select_card
  start_local-Starts url none one e = refusal _
  start_local-Starts url (some path) one e =
      pick Starts (not client.is_available) (λ down. refusal _)
        (λ up.
          pick Starts (selection s client).cancelled
            (λ dropped. inl (killed, _, refl, spoken.translated _ [], λ k. dropped))
            (λ kept. sign_with-Starts url path _ one e (ground (arith, up)) refl))

  start_urls-Starts :
      (urls : List Text) → share.urls ≡ urls → Starts (start_urls s share client urls)
  unfolding start_urls
  start_urls-Starts [] e = refusal _
  start_urls-Starts (url ∷ []) e = start_local-Starts url _ e refl
  start_urls-Starts (u1 ∷ u2 ∷ urls) e =
      inl (user_defined, _, refl, spoken.translated _ _, λ k. absurd (ground arith))

  pub start-Starts : Starts (start s share client)
  unfolding start
  start-Starts = start_urls-Starts share.urls refl

pub run-ended : (s : Setting) (r : Result) (events : List Event) → run s (ended r) events ≡ ended r
unfolding run step
run-ended s r [] = refl
run-ended s r (e ∷ events) = run-ended s r events

pub run-signing :
    (s : Setting) (j : SignJob) (events : List Event)
    → run s (signing j) events ≡ signing (Job.run s.texts s.desk j events)
unfolding run step Job.run
run-signing s j [] = refl
run-signing s j (e ∷ events) = run-signing s (Job.step s.texts s.desk j e) events
