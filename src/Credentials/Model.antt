-- ===== src/Credentials/Model.antt =====
-- components/credentials/src/CredentialModel.cpp: the list of credentials that the window shows.
use libre_kde.Base.{
  ℕ, suc, Bool, true, false, Text, codes, text_eq, List, [], ◌∷◌, ◌++◌, Option, none, some,
  if◌then◌else◌, get_elem?, length, zero, ◌<◌, ◌≡◌, ◌↔◌, arith,
}
use libre_kde.Base.Decimal.{decimal}
use libre_kde.Kio.Render.Leaves.{join}
use libre_kde.Shared.ErrorText.{Texts}
use libre_kde.Shared.CredentialText.{
  CredentialKind, CredentialState, kind_name, state_name, guidance,
}

-- The client library's record of one credential.
pub record CredentialRecord : Type 0 where
  pub id : Text
  pub kind : CredentialKind
  pub state : CredentialState
  pub can_change : Bool
  pub unblockable : Bool
  pub activatable : Bool
  pub key_activatable : Bool
  pub key_activation_pending : Bool
  pub retries_left : Option ℕ
  pub retries_max : Option ℕ
  pub uses_left : Option ℕ
  pub uses_max : Option ℕ
  pub blocked_guidance_key : Option Text
  pub blocked_guidance_fallback : Option Text
  pub key_activation_guidance_key : Option Text
  pub key_activation_guidance_fallback : Option Text

-- One counter: its count of a maximum, its count, or nothing.
counter_part : Texts → Text → Text → Option ℕ → Option ℕ → List Text
counter_part texts of_max alone none max = []
counter_part texts of_max alone (some left) (some max) =
    texts.translate of_max (decimal left ∷ decimal max ∷ []) ∷ []
counter_part texts of_max alone (some left) none = texts.translate alone (decimal left ∷ []) ∷ []

unfoldable pub counters_text : Texts → CredentialRecord → Text
unfolding counter_part
counters_text texts r = join (codes " · ") (
    counter_part texts (codes "Attempts: %1 of %2") (codes "Attempts: %1") r.retries_left
      r.retries_max
    ++ counter_part texts (codes "Uses: %1 of %2") (codes "Uses: %1") r.uses_left r.uses_max)

abbrev is_blocked : CredentialState → Bool
is_blocked CredentialState.blocked = true
is_blocked _ = false

unfoldable pub guidance_text : Texts → CredentialRecord → Text
guidance_text texts r =
    if is_blocked r.state
    then guidance texts r.blocked_guidance_key r.blocked_guidance_fallback
    else if r.key_activation_pending
    then guidance texts r.key_activation_guidance_key r.key_activation_guidance_fallback
    else []

pub data Role : Type 0 where
  id_role kind_name_role state_name_role state_role counters_role guidance_role : Role
  can_change_role unblockable_role activatable_role key_activatable_role : Role
  key_activation_pending_role other_role : Role

-- A QVariant that the model hands out.
pub data Variant : Type 0 where
  invalid : Variant
  text : Text → Variant
  flag : Bool → Variant
  number : ℕ → Variant

-- The order of the enumerators, which the delegate's QML spells out.
abbrev pub state_number : CredentialState → ℕ
state_number CredentialState.unknown = 0
state_number CredentialState.transport = 1
state_number CredentialState.operational = 2
state_number CredentialState.needs_change = 3
state_number CredentialState.blocked = 4

role_data : Texts → CredentialRecord → Role → Variant
role_data texts r id_role = text r.id
role_data texts r kind_name_role = text (kind_name texts r.kind)
role_data texts r state_name_role = text (state_name texts r.state)
role_data texts r state_role = number (state_number r.state)
role_data texts r counters_role = text (counters_text texts r)
role_data texts r guidance_role = text (guidance_text texts r)
role_data texts r can_change_role = flag r.can_change
role_data texts r unblockable_role = flag r.unblockable
role_data texts r activatable_role = flag r.activatable
role_data texts r key_activatable_role = flag r.key_activatable
role_data texts r key_activation_pending_role = flag r.key_activation_pending
role_data texts r other_role = invalid

row_data : Texts → Option CredentialRecord → Role → Variant
unfolding role_data
row_data texts none role = invalid
row_data texts (some r) role = role_data texts r role

-- `data`, at a row of the flat list.
unfoldable pub model_data : Texts → List CredentialRecord → ℕ → Role → Variant
unfolding row_data
model_data texts records row role = row_data texts (get_elem? records row) role

unfoldable pub record_by_id : List CredentialRecord → Text → Option CredentialRecord
record_by_id [] id = none
record_by_id (r ∷ records) id = if text_eq r.id id then some r else record_by_id records id

abbrev pub is_puk : CredentialKind → Bool
is_puk CredentialKind.puk = true
is_puk _ = false

-- `rowOfKind` at the kind that the controller asks for; `none` for -1.
unfoldable pub row_of_puk : ℕ → List CredentialRecord → Option ℕ
row_of_puk row [] = none
row_of_puk row (r ∷ records) =
    let later = row_of_puk (suc row) records in if is_puk r.kind then some row else later

-- `rowCount`, under the root or under a row.
unfoldable pub row_count : Bool → List CredentialRecord → ℕ
row_count under_row records = if under_row then 0 else length records

-- `roleNames`.
unfoldable pub role_name : Role → Option Text
role_name id_role = some (codes "id")
role_name kind_name_role = some (codes "kindName")
role_name state_name_role = some (codes "stateName")
role_name state_role = some (codes "state")
role_name counters_role = some (codes "counters")
role_name guidance_role = some (codes "guidance")
role_name can_change_role = some (codes "canChange")
role_name unblockable_role = some (codes "unblockable")
role_name activatable_role = some (codes "activatable")
role_name key_activatable_role = some (codes "keyActivatable")
role_name key_activation_pending_role = some (codes "keyActivationPending")
role_name other_role = none

-- `setRecords`, which resets the views.
abbrev pub set_records : List CredentialRecord → List CredentialRecord → List CredentialRecord
set_records records shown = records

role_data-named :
    (texts : Texts) (r : CredentialRecord) (role : Role)
    → (role_name role ≡ none) ↔ (role_data texts r role ≡ invalid)
unfolding role_name role_data
role_data-named texts r id_role = ground arith
role_data-named texts r kind_name_role = ground arith
role_data-named texts r state_name_role = ground arith
role_data-named texts r state_role = ground arith
role_data-named texts r counters_role = ground arith
role_data-named texts r guidance_role = ground arith
role_data-named texts r can_change_role = ground arith
role_data-named texts r unblockable_role = ground arith
role_data-named texts r activatable_role = ground arith
role_data-named texts r key_activatable_role = ground arith
role_data-named texts r key_activation_pending_role = ground arith
role_data-named texts r other_role = ground arith

-- A row of the list has a value just in the roles that have a name for QML.
pub model_data-named :
    (texts : Texts) (records : List CredentialRecord) (row : ℕ) (role : Role)
    → row < row_count false records
    → (role_name role ≡ none) ↔ (model_data texts records row role ≡ invalid)
unfolding model_data row_data row_count
model_data-named texts [] row role h = absurd (omega (arith, h))
model_data-named texts (r ∷ records) zero role h = role_data-named texts r role
model_data-named texts (r ∷ records) (suc row) role h =
    model_data-named texts records row role (omega (arith, h))
