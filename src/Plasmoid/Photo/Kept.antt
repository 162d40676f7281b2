-- ===== src/Plasmoid/Photo/Kept.antt =====
-- components/plasmoid/src/SmartCardHandler.cpp, `onPhotoFinished` and `clearPhoto`: what each keeps of
-- a handler's photo members and of the store.
use libre_kde.Base.{
  ℕ, ◌≡◌, ◌≢◌, refl, true, false, not, is_empty, List, [], ◌∷◌, Option, none, some, if◌then◌else◌,
  ◌==◌, ==_iff, arith, pick,
}
use libre_kde.Shared.Agent.{OperationStatus}
use libre_kde.Plasmoid.Photo.{
  Qt, Images, Photo, photo_url, clear, set_image, image, take_photo, first_photo, on_photo_finished,
  clear_photo,
}

module _ {Image : Type 0} (qt : Qt Image) where
  pub image-clear :
      (s slot : ℕ) (images : Images Image)
      → image qt s (clear slot images) ≡ (if slot == s then qt.no_image else image qt s images)
  unfolding image clear
  image-clear s slot [] = ground arith
  image-clear s slot ((t, held) ∷ images) =
      ground (arith, image-clear s slot images, ==_iff t slot, ==_iff t s, ==_iff slot s)

  image-set_image :
      (s slot : ℕ) (held : Image) (images : Images Image)
      → image qt s (set_image slot held images) ≡ (if slot == s then held else image qt s images)
  unfolding image set_image
  image-set_image s slot held images = ground (arith, image-clear s slot images)

  -- What a handler shows.
  abbrev pub held_by : Photo → Image
  held_by w = if w.has_card_photo then qt.from_data w.bytes else qt.no_image

  -- The members agree: with a photo its bytes decode and the address is that of the slot and the
  -- token, and without one there are neither bytes nor an address.
  pub record IsKept (w : Photo) : Type 0 where
    pub address : w.card_photo_url ≡ (if w.has_card_photo then photo_url w.slot w.token else [])
    pub bytes : is_empty w.bytes ≡ not w.has_card_photo
    pub decodes : w.has_card_photo ≡ true → qt.is_null (qt.from_data w.bytes) ≡ false

  -- An operation of a handler that writes nothing but its own photo, and that as it is shown.
  pub record Respects (f : Photo × Images Image → Photo × Images Image) : Type 0 where
    pub slot : (w : Photo) (images : Images Image) → (f (w, images)).0.slot ≡ w.slot
    pub kept : (w : Photo) (images : Images Image) → IsKept w → IsKept (f (w, images)).0
    pub held :
        (w : Photo) (images : Images Image)
        → IsKept w
        → image qt w.slot images ≡ held_by w
        → image qt w.slot (f (w, images)).1 ≡ held_by (f (w, images)).0
    pub frame :
        (s : ℕ) (w : Photo) (images : Images Image)
        → s ≢ w.slot
        → image qt s (f (w, images)).1 ≡ image qt s images

  pub clear_photo-Respects : Respects (clear_photo qt)
  unfolding clear_photo
  clear_photo-Respects = record {
    slot = λ w images. ground arith;
    kept = λ w images k. record {
      address = let a = k.address in ground arith;
      bytes = let a = k.address in ground arith;
      decodes = let a = k.address in ground arith;
    };
    held = λ w images k e. let a = k.address in ground (arith, image-clear w.slot w.slot images);
    frame = λ s w images d. ground (arith, image-clear s w.slot images, d);
  }

  same-Respects : Respects (λ held. held)
  same-Respects = record {
    slot = λ w images. refl;
    kept = λ w images k. k;
    held = λ w images k e. e;
    frame = λ s w images d. refl;
  }

  take_photo-Respects : (bytes : List ℕ) → Respects (take_photo qt bytes)
  unfolding take_photo
  take_photo-Respects bytes = record {
    slot = λ w images. ground arith;
    kept = λ w images k.
        let P = λ (r : Photo × Images Image). IsKept r.0 in
        pick P (is_empty bytes) (λ _. k)
          λ full.
            pick P (qt.is_null (qt.from_data bytes)) (λ _. k)
              λ good. record { address = refl; bytes = full; decodes = λ _. good };
    held = λ w images k e.
        ground (arith, image-set_image w.slot w.slot (qt.from_data bytes) images, e);
    frame = λ s w images d. ground (arith, image-set_image s w.slot (qt.from_data bytes) images, d);
  }

  pub on_photo_finished-Respects :
      (status : OperationStatus) (photos : List (Option (List ℕ)))
      → Respects (on_photo_finished qt status photos)
  unfolding on_photo_finished first_photo
  on_photo_finished-Respects OperationStatus.ok [] = same-Respects
  on_photo_finished-Respects OperationStatus.ok (none ∷ photos) = same-Respects
  on_photo_finished-Respects OperationStatus.ok (some bytes ∷ photos) = take_photo-Respects bytes
  on_photo_finished-Respects OperationStatus.cancelled photos = same-Respects
  on_photo_finished-Respects OperationStatus.error photos = same-Respects
