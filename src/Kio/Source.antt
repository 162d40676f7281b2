-- ===== src/Kio/Source.antt =====
-- components/kio/CardDataSource.h: what the worker knows of the cards. The data source itself is
-- an interface; its answers for one request are the fields of `CardDataSource`.
pub use libre_kde.Shared.Agent.{
  Cap, identity_data, pki, emrtd_crypto, pin_management, AgentState, ready, stopped, missing,
}
use libre_kde.Base.{ℕ, Bool, Text, List}

-- `capabilities` holds what `Client::has` answers for each capability.
pub record CardPresence : Type 0 where
  pub reader_name : Text
  pub card_id : Text
  pub capabilities : Cap → Bool
  pub pre_read_auth : Text
  pub reader_label : Text

pub data ReadStatus : Type 0 where
  ok cancelled auth_failed card_removed unavailable capability_missing error not_available :
      ReadStatus

pub record IdentityFieldView : Type 0 where
  pub group : Text
  pub field_key : Text
  pub label_fallback : Text
  pub value : Text

-- What is read of a QDateTime: its ISO text as it stands, and converted to UTC first.
pub record DateTime : Type 0 where
  pub is_valid : Bool
  pub is_local_time : Bool
  pub iso : Text
  pub utc_iso : Text

-- The client library's `CertificateInfo`, with the fields that this program reads. `key_usage_bits`
-- is a 32-bit mask.
pub record CertificateInfo : Type 0 where
  pub id : Text
  pub subject : Text
  pub issuer : Text
  pub not_after : DateTime
  pub key_usage_bits : ℕ
  pub extended_key_usage_oids : List Text
  pub signing_capable : Bool
  pub chain_subject_cns : List Text

pub record IdentityResult : Type 0 where
  pub status : ReadStatus
  pub fields : List IdentityFieldView
  pub message : Text

pub record CertListResult : Type 0 where
  pub status : ReadStatus
  pub certs : List CertificateInfo
  pub message : Text

pub record PhotoResult : Type 0 where
  pub status : ReadStatus
  pub bytes : List ℕ
  pub message : Text

pub record CertDerResult : Type 0 where
  pub status : ReadStatus
  pub der : List ℕ
  pub message : Text

pub record CardDataSource : Type 0 where
  pub list_readers_with_cards : List CardPresence
  pub read_identity : Text → IdentityResult
  pub read_certificates : Text → CertListResult
  pub get_photo : Text → PhotoResult
  pub get_certificate_der : Text → Text → CertDerResult
  pub agent_state : AgentState
