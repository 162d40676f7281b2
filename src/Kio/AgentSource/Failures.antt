-- ===== src/Kio/AgentSource/Failures.antt =====
-- components/kio/AgentCardDataSource.cpp and CardWorkerLogic.cpp: what a file manager is told of a read
-- that failed.
use libre_kde.Base.{
  Bool, true, false, Text, List, [], Option, none, some, ◌≡◌, ◌≢◌, refl, ◌↔◌, ◌⊎◌, inl, inr, arith,
  pick,
}
use libre_kde.Shared.Agent.{ErrorCode, CallError, SyncError, OperationStatus}
use libre_kde.Shared.ErrorText.{Texts, for_outcome}
use libre_kde.Shared.ErrorText.Floor.{IsSpoken, for_outcome-spoken}
use libre_kde.Kio.Source.{ReadStatus, CertDerResult}
use libre_kde.Kio.Folders.{Catalog}
use libre_kde.Kio.Worker.{WorkerResult, fail, pass, user_canceled, fail_for_read}
use libre_kde.Kio.AgentSource.{
  Report, ended, fetched, map_status, status_of_failure, status_of_call, reason_for, status_of,
  certs_of, read_certificates, get_photo, photo_of, der_of, is_missing, failed_fetch,
  get_certificate_der,
}
use libre_kde.Shared.IdentityRows.{IdentityLibrary, FieldGroup, Words}
use libre_kde.Kio.AgentSource.Identity.{identity_of, read_identity}

abbrev pub text_of : WorkerResult → Text
text_of pass = []
text_of (fail e message) = message

abbrev pub is_cancel : WorkerResult → Bool
is_cancel (fail user_canceled message) = true
is_cancel _ = false

-- The status is one whose sentence is the agent's or the transport's own.
abbrev pub IsGeneric : ReadStatus → Type 0
IsGeneric status = (status ≡ ReadStatus.error) ⊎ (status ≡ ReadStatus.unavailable)

-- What a file manager is told of the end `r` of an operation, where a read of it has that status and
-- message. It is a cancel just where the operation was cancelled and no failure of the call is behind that.
abbrev pub IsToldOf : Texts → Catalog → Bool → Report → ReadStatus → Text → Type 0
IsToldOf texts i18n is_dir_op r status message =
    (status ≢ ReadStatus.ok)
    × ((is_cancel (fail_for_read i18n status is_dir_op message) ≡ true)
        ↔ ((r.status ≡ OperationStatus.cancelled) × (r.call_error ≡ CallError.none)))
    × (IsGeneric status
        → text_of (fail_for_read i18n status is_dir_op message)
          ≡ for_outcome texts r.error_code r.call_error r.message_key r.message_fallback)

-- The same of the fetch of a certificate, which the user cannot cancel. It is not there just where the
-- client library names one of the two refusals for that.
abbrev pub IsToldOfFetch : Texts → Catalog → Bool → Report → ReadStatus → Text → Type 0
IsToldOfFetch texts i18n is_dir_op r status message =
    (status ≢ ReadStatus.ok)
    × (is_cancel (fail_for_read i18n status is_dir_op message) ≡ false)
    × ((status ≡ ReadStatus.not_available) ↔ (
        (r.sync_error ≡ some SyncError.key_not_found)
        ⊎ (r.sync_error ≡ some SyncError.unknown_card)))
    × (IsGeneric status
        → text_of (fail_for_read i18n status is_dir_op message)
          ≡ for_outcome texts r.error_code r.call_error r.message_key r.message_fallback)

call-settled :
    (call : CallError)
    → (status_of_call call ≢ ReadStatus.cancelled) × (status_of_call call ≢ ReadStatus.ok)
unfolding status_of_call
call-settled call = ground arith

failure-settled :
    (code : ErrorCode) (call : CallError)
    → (status_of_failure code call ≢ ReadStatus.cancelled)
      × (status_of_failure code call ≢ ReadStatus.ok)
unfolding status_of_failure
failure-settled ErrorCode.credential_wrong call = ground arith
failure-settled ErrorCode.credential_blocked call = ground arith
failure-settled ErrorCode.auth_failed call = ground arith
failure-settled ErrorCode.card_removed call = ground arith
failure-settled ErrorCode.capability_missing call = ground arith
failure-settled ErrorCode.unsupported_card call = ground arith
failure-settled _ call = call-settled call

-- A status is the one of a cancel, or of a success, just for such an end of the operation.
status-settled :
    (status : OperationStatus) (code : ErrorCode) (call : CallError)
    → ((map_status status code call ≡ ReadStatus.cancelled)
        ↔ ((status ≡ OperationStatus.cancelled) × (call ≡ CallError.none)))
      × ((map_status status code call ≡ ReadStatus.ok) ↔ (status ≡ OperationStatus.ok))
unfolding map_status
status-settled OperationStatus.ok code call = ground arith
status-settled OperationStatus.cancelled code CallError.none = ground arith
status-settled OperationStatus.cancelled code call = ground (arith, failure-settled code call)
status-settled OperationStatus.error code call = ground (arith, failure-settled code call)

is_missing_iff :
    (named : Option SyncError)
    → (is_missing named ≡ true)
      ↔ ((named ≡ some SyncError.key_not_found) ⊎ (named ≡ some SyncError.unknown_card))
unfolding is_missing
is_missing_iff none = ground arith
is_missing_iff (some named) = ground arith

failed_fetch-IsGeneric : (call : CallError) → IsGeneric (failed_fetch call)
unfolding failed_fetch
failed_fetch-IsGeneric call = ground arith

-- The three reads hand on a status that is not a success, with the reason for it.
certs-handed :
    (texts : Texts) (r : Report) (status : ReadStatus)
    → status ≢ ReadStatus.ok
    → ((certs_of texts r status).status ≡ status)
      × ((certs_of texts r status).message ≡ reason_for texts status r)
unfolding certs_of
certs-handed texts r ReadStatus.ok bad = absurd (bad refl)
certs-handed texts r _ bad = (refl, refl)

photo-handed :
    (texts : Texts) (r : Report) (status : ReadStatus)
    → status ≢ ReadStatus.ok
    → ((photo_of texts r status).status ≡ status)
      × ((photo_of texts r status).message ≡ reason_for texts status r)
unfolding photo_of
photo-handed texts r ReadStatus.ok bad = absurd (bad refl)
photo-handed texts r _ bad = (refl, refl)

identity-handed :
    {Field : Type 0} (library : IdentityLibrary Field) (words : Words) (texts : Texts)
    (groups : List (FieldGroup Field)) (r : Report) (status : ReadStatus)
    → status ≢ ReadStatus.ok
    → ((identity_of library words texts groups r status).status ≡ status)
      × ((identity_of library words texts groups r status).message ≡ reason_for texts status r)
unfolding identity_of
identity-handed library words texts groups r ReadStatus.ok bad = absurd (bad refl)
identity-handed library words texts groups r _ bad = (refl, refl)

module _ (texts : Texts) (spoken : IsSpoken texts) (i18n : Catalog) where
  told :
      (status : ReadStatus) (is_dir_op : Bool) (r : Report)
      → IsGeneric status
      → text_of (fail_for_read i18n status is_dir_op (reason_for texts status r))
        ≡ for_outcome texts r.error_code r.call_error r.message_key r.message_fallback
  unfolding fail_for_read reason_for
  told status is_dir_op r (inl e) =
      rw
        (
          e,
          for_outcome-spoken texts spoken r.error_code r.call_error r.message_key
              r.message_fallback,
        )
        refl
  told status is_dir_op r (inr e) =
      rw
        (
          e,
          for_outcome-spoken texts spoken r.error_code r.call_error r.message_key
              r.message_fallback,
        )
        refl

  cancel-told :
      (status : ReadStatus) (is_dir_op : Bool) (r : Report)
      → (is_cancel (fail_for_read i18n status is_dir_op (reason_for texts status r)) ≡ true)
        ↔ (status ≡ ReadStatus.cancelled)
  unfolding fail_for_read
  cancel-told status is_dir_op r = ground arith

  -- A read that hands on the status of the operation's end, and the reason for it.
  read-told :
      (is_dir_op : Bool) (r : Report) (status : ReadStatus) (message : Text)
      → r.status ≢ OperationStatus.ok
      → status ≡ status_of r
      → message ≡ reason_for texts (status_of r) r
      → IsToldOf texts i18n is_dir_op r status message
  read-told is_dir_op r status message failed e said =
      let (cancels, succeeds) = status-settled r.status r.error_code r.call_error in
      rw (e, said)
        (
          (λ ended_well. failed (succeeds.0 ended_well)),
          (
            (λ c. cancels.0 ((cancel-told (status_of r) is_dir_op r).0 c)),
            (λ c. (cancel-told (status_of r) is_dir_op r).1 (cancels.1 c)),
          ),
          told (status_of r) is_dir_op r,
        )

  generic-told :
      (is_dir_op : Bool) (r : Report) (status : ReadStatus)
      → IsGeneric status
      → is_missing r.sync_error ≡ false
      → IsToldOfFetch texts i18n is_dir_op r status (reason_for texts status r)
  unfolding fail_for_read
  generic-told is_dir_op r status generic known =
      let named = is_missing_iff r.sync_error in
      (
        ground arith,
        elim generic [ inl e ↦ rw e refl | inr e ↦ rw e (ground arith) ],
        ground (arith, named),
        told status is_dir_op r,
      )

  fetch-told :
      (is_dir_op : Bool) (r : Report) (status : OperationStatus)
      → status ≢ OperationStatus.ok
      → IsToldOfFetch texts i18n is_dir_op r
          (der_of texts r status).status
          (der_of texts r status).message
  unfolding der_of fail_for_read
  fetch-told is_dir_op r OperationStatus.ok bad = absurd (bad refl)
  fetch-told is_dir_op r _ bad =
      let named = is_missing_iff r.sync_error in
      pick (λ (d : CertDerResult). IsToldOfFetch texts i18n is_dir_op r d.status d.message)
        (is_missing r.sync_error) (λ missing. ground arith)
        (λ known.
          generic-told is_dir_op r (failed_fetch r.call_error) (failed_fetch-IsGeneric r.call_error)
            known)

  module _ {Field : Type 0} (library : IdentityLibrary Field) (words : Words) where
    -- For an operation that did not succeed, with a catalogue of the failures that has no empty text, none
    -- of the four reads succeeds. The worker tells of a read of the identity, of the certificates or of
    -- the photo that it was cancelled just where the operation was cancelled and no failure of the call
    -- stands behind that, and of a fetch of a certificate never; a fetch finds nothing just where the
    -- refusal names an unknown key or card. Where the status of a read is the generic error or the
    -- unavailable service, the text is the shared sentence for the two failure axes.
    pub reads-IsFaithful :
        (is_dir_op : Bool) (groups : List (FieldGroup Field)) (r : Report)
        → r.status ≢ OperationStatus.ok
        → IsToldOf texts i18n is_dir_op r
            (read_identity library words texts groups (ended r)).status
            (read_identity library words texts groups (ended r)).message
          × IsToldOf texts i18n is_dir_op r
              (read_certificates texts (ended r)).status
              (read_certificates texts (ended r)).message
          × IsToldOf texts i18n is_dir_op r
              (get_photo texts (ended r)).status
              (get_photo texts (ended r)).message
          × IsToldOfFetch texts i18n is_dir_op r
              (get_certificate_der texts (fetched r)).status
              (get_certificate_der texts (fetched r)).message
    unfolding read_identity read_certificates get_photo get_certificate_der
    reads-IsFaithful is_dir_op groups r failed =
        let (cancels, succeeds) = status-settled r.status r.error_code r.call_error in
        let settled : status_of r ≢ ReadStatus.ok = λ e. failed (succeeds.0 e) in
        let (i, identity_text) =
          identity-handed library words texts groups r (status_of r) settled in
        let (c, certs_text) = certs-handed texts r (status_of r) settled in
        let (p, photo_text) = photo-handed texts r (status_of r) settled in
        (
          read-told is_dir_op r _ _ failed i identity_text,
          read-told is_dir_op r _ _ failed c certs_text,
          read-told is_dir_op r _ _ failed p photo_text,
          fetch-told is_dir_op r r.status failed,
        )
