-- ===== src/Kio/AgentSource/Photos.antt =====
-- components/kio/AgentCardDataSource.cpp, `getPhoto`: when a photo is handed out.
use libre_kde.Base.{ℕ, false, is_empty, List, [], ◌∷◌, Option, none, some, ◌≡◌, ◌↔◌, arith}
use libre_kde.Shared.ErrorText.{Texts}
use libre_kde.Kio.Source.{ReadStatus}
use libre_kde.Kio.AgentSource.{
  Report, Wait, no_card, card_gone, ended, status_of, get_photo, photo_of, first_photo,
}

first_photo-filled :
    (texts : Texts) (photos : List (Option (List ℕ)))
    → ((first_photo texts photos).status ≡ ReadStatus.ok)
      ↔ (is_empty (first_photo texts photos).bytes ≡ false)
unfolding first_photo
first_photo-filled texts [] = ground arith
first_photo-filled texts (none ∷ photos) = ground arith
first_photo-filled texts (some [] ∷ photos) = ground arith
first_photo-filled texts (some (b ∷ bytes) ∷ photos) = ground arith

photo_of-filled :
    (texts : Texts) (r : Report) (status : ReadStatus)
    → ((photo_of texts r status).status ≡ ReadStatus.ok)
      ↔ (is_empty (photo_of texts r status).bytes ≡ false)
unfolding photo_of
photo_of-filled texts r ReadStatus.ok = first_photo-filled texts r.photos
photo_of-filled texts r ReadStatus.cancelled = ground arith
photo_of-filled texts r ReadStatus.auth_failed = ground arith
photo_of-filled texts r ReadStatus.card_removed = ground arith
photo_of-filled texts r ReadStatus.unavailable = ground arith
photo_of-filled texts r ReadStatus.capability_missing = ground arith
photo_of-filled texts r ReadStatus.error = ground arith
photo_of-filled texts r ReadStatus.not_available = ground arith

-- However the wait for a photo ends, the read succeeds just where it has bytes: an empty photo is
-- never handed out as one, and a failed read has none.
pub get_photo-filled :
    (texts : Texts) (wait : Wait)
    → ((get_photo texts wait).status ≡ ReadStatus.ok)
      ↔ (is_empty (get_photo texts wait).bytes ≡ false)
unfolding get_photo
get_photo-filled texts no_card = ground arith
get_photo-filled texts card_gone = ground arith
get_photo-filled texts (ended r) = photo_of-filled texts r (status_of r)
