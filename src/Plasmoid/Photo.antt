-- ===== src/Plasmoid/Photo.antt =====
-- components/plasmoid/src, CardPhotoStore.h, CardPhotoProvider.cpp and the photo members of
-- SmartCardHandler.cpp: the photos of the widgets of one process, in one store that the provider reads.
pub mod Address
pub mod Process
pub mod Kept
pub mod Shown
pub mod Runs
mod Tests
use libre_kde.Base.{
  ℕ, zero, suc, ◌+◌, ◌-◌, ◌%◌, ◌^◌, Bool, true, false, not, ◌&&◌, Text, codes, is_empty, text_eq,
  List, [], ◌∷◌, ◌++◌, Option, none, some, if◌then◌else◌, ◌==◌, ltb, length, take, drop,
}
use libre_kde.Base.Decimal.{decimal}
use libre_kde.Kio.Folders.{arg}
use libre_kde.Shared.Agent.{OperationStatus}

-- A size: none is one that is not valid.
abbrev pub Size : Type 0
Size = Option (ℕ × ℕ)

-- Qt's part: images, the format that is read off bytes, the text of a provider's id that Qt Quick takes
-- out of an address, and a numeral's value, none where the text is none or it takes more than 64 bits.
pub record Qt (Image : Type 0) : Type 0 where
  pub no_image : Image
  pub is_null : Image → Bool
  pub from_data : List ℕ → Image
  pub size : Image → Size
  pub scaled : ℕ × ℕ → Image → Image
  pub image_format : List ℕ → Text
  pub image_id : Text → Text
  pub to_ulonglong : Text → Option ℕ

-- `m_images`: the entry of a slot that stands first.
abbrev pub Images : Type 0 → Type 0
Images Image = List (ℕ × Image)

-- The photo members of a handler.
pub record Photo : Type 0 where
  pub slot : ℕ
  pub token : ℕ
  pub bytes : List ℕ
  pub has_card_photo : Bool
  pub card_photo_url : Text
  pub suggested_file_name : Text

-- `cardPhotoUrl`, of a slot and a token.
unfoldable pub photo_url : ℕ → ℕ → Text
unfolding arg
photo_url slot token =
    arg (arg (codes "image://librekde/cardphoto/%1?%2") (decimal slot)) (decimal token)

-- `indexOf`, from the first place on.
unfoldable pub index_of : ℕ → Text → Option ℕ
index_of c [] = none
index_of c (x ∷ s) =
    let rest = index_of c s in
    if x == c then some 0 else elim rest [ none ↦ none | some i ↦ some (suc i) ]

-- Where the slot's text ends: `indexOf` from behind the slash, or the whole text's length.
slot_end : ℕ → Text → ℕ
unfolding index_of
slot_end slash id = elim (index_of b'?' (drop (slash + 1) id)) [
  | none ↦ length id
  | some i ↦ slash + 1 + i
]

or_zero : Option ℕ → ℕ
or_zero none = 0
or_zero (some n) = n

extension : Text → Text
extension format = if text_eq format (codes "jpeg") then codes "jpg" else format

module _ {Image : Type 0} where
  -- `CardPhotoStore::clear`.
  unfoldable pub clear : ℕ → Images Image → Images Image
  clear slot [] = []
  clear slot ((s, image) ∷ images) =
      let rest = clear slot images in if s == slot then rest else (s, image) ∷ rest

  -- `CardPhotoStore::setImage`.
  unfoldable pub set_image : ℕ → Image → Images Image → Images Image
  unfolding clear
  set_image slot image images = (slot, image) ∷ clear slot images

module _ {Image : Type 0} (qt : Qt Image) where
  slot_behind : Text → Option ℕ → ℕ
  unfolding slot_end or_zero
  slot_behind id none = 0
  slot_behind id (some slash) =
      or_zero (qt.to_ulonglong (take (slot_end slash id - slash - 1) (drop (slash + 1) id)))

  -- `slotFromImageId`.
  unfoldable pub slot_from_image_id : Text → ℕ
  unfolding slot_behind index_of
  slot_from_image_id id = slot_behind id (index_of b'/' id)

  -- `CardPhotoStore::image`.
  unfoldable pub image : ℕ → Images Image → Image
  image slot [] = qt.no_image
  image slot ((s, held) ∷ images) = if s == slot then held else image slot images

  -- `CardPhotoStore::hasImage`.
  unfoldable pub has_image : ℕ → Images Image → Bool
  unfolding image
  has_image slot images = not (qt.is_null (image slot images))

  fitted : Size → Image → Image
  fitted none held = held
  fitted (some (w, h)) held =
      if not (qt.is_null held) && ltb 0 w && ltb 0 h then qt.scaled (w, h) held else held

  -- What `requestImage` gives of the image that it found, and the size that it reports.
  unfoldable pub delivered : Size → Image → Image × Size
  unfolding fitted
  delivered wanted held = (fitted wanted held, qt.size held)

  -- `requestImage`.
  unfoldable pub request_image : Option (Images Image) → Text → Size → Image × Size
  unfolding delivered image slot_from_image_id
  request_image none id wanted = delivered wanted qt.no_image
  request_image (some images) id wanted = delivered wanted (image (slot_from_image_id id) images)

  -- `suggestedPhotoFileName`.
  unfoldable pub suggested_photo_file_name : List ℕ → Text
  unfolding extension
  suggested_photo_file_name bytes =
      let format = extension (qt.image_format bytes) in
      if is_empty format then codes "card-photo" else codes "card-photo" ++ b'.' ∷ format

  -- The end of `onPhotoFinished`, on a payload's bytes.
  unfoldable pub take_photo : List ℕ → Photo × Images Image → Photo × Images Image
  unfolding suggested_photo_file_name set_image photo_url
  take_photo bytes (p, images) =
      let token = (p.token + 1) % 2 ^ 64 in
      if is_empty bytes
      then (p, images)
      else if qt.is_null (qt.from_data bytes)
      then (p, images)
      else (
        record p {
          bytes = bytes;
          suggested_file_name = suggested_photo_file_name bytes;
          has_card_photo = true;
          token = token;
          card_photo_url = photo_url p.slot token;
        },
        set_image p.slot (qt.from_data bytes) images,
      )

  -- The payloads of the operation's photos; none is one that could not be read.
  first_photo : List (Option (List ℕ)) → Photo × Images Image → Photo × Images Image
  unfolding take_photo
  first_photo [] held = held
  first_photo (none ∷ photos) held = held
  first_photo (some bytes ∷ photos) held = take_photo bytes held

  -- `onPhotoFinished`, on a live operation.
  unfoldable pub on_photo_finished :
      OperationStatus → List (Option (List ℕ)) → Photo × Images Image → Photo × Images Image
  unfolding first_photo
  on_photo_finished OperationStatus.ok photos held = first_photo photos held
  on_photo_finished _ photos held = held

  -- `clearPhoto`.
  unfoldable pub clear_photo : Photo × Images Image → Photo × Images Image
  unfolding clear
  clear_photo (p, images) =
      let scrubbed = record p { bytes = [] } in
      if not p.has_card_photo && is_empty p.card_photo_url
      then (scrubbed, clear p.slot images)
      else (
        record scrubbed { has_card_photo = false; card_photo_url = []; suggested_file_name = [] },
        clear p.slot images,
      )
