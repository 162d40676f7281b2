-- ===== src/Plasmoid/Photo/Tests.antt =====
-- Runs of the photos of two handlers.
use libre_kde.Base.{
  ℕ, ◌≡◌, refl, ap, true, codes, List, [], ◌∷◌, none, some, ◌==◌, text_eq, drop, inl, inr, In, ◌+◌,
  arith,
}
use libre_kde.Base.Decimal.{decimal, value_from, value-decimal}
use libre_kde.Shared.Agent.{OperationStatus}
use libre_kde.Plasmoid.Photo.{
  Qt, Photo, photo_url, image, slot_from_image_id, request_image, delivered,
  suggested_photo_file_name,
}
use libre_kde.Plasmoid.Photo.Address.{IsDocumented, slot_from_image_id-photo_url}
use libre_kde.Plasmoid.Photo.Process.{
  Event, created, destroyed, photo_finished, card_changed, run, new_process,
}
use libre_kde.Plasmoid.Photo.Shown.{shown}
use libre_kde.Plasmoid.Photo.Runs.{run-shown, request_image-run}

-- Images are numbers: that of the first byte, and null where it is zero.
abbrev first_byte : List ℕ → ℕ
first_byte [] = 0
first_byte (b ∷ bytes) = b

abbrev number_images : Qt ℕ
number_images = record {
  no_image = 0;
  is_null = λ n. n == 0;
  from_data = first_byte;
  size = λ n. some (n, n);
  scaled = λ wanted n. n + 1000;
  image_format = λ bytes. codes "jpeg";
  image_id = drop 17;
  to_ulonglong = λ s. some (value_from 0 s);
}

number_images-IsDocumented : IsDocumented number_images
number_images-IsDocumented = record {
  image_id = λ path plain. refl;
  to_ulonglong = λ n h. ap some (value-decimal n);
}

-- Two handlers read photos, the card of the first changes, and it reads another.
abbrev two_widgets : List Event
two_widgets =
    created
    ∷ created
    ∷ photo_finished 1 OperationStatus.ok (some (7 ∷ 1 ∷ []) ∷ [])
    ∷ photo_finished 2 OperationStatus.ok (some (8 ∷ []) ∷ [])
    ∷ card_changed 1
    ∷ photo_finished 1 OperationStatus.error (some (5 ∷ []) ∷ [])
    ∷ photo_finished 1 OperationStatus.ok (some (9 ∷ 3 ∷ []) ∷ none ∷ [])
    ∷ []

address_text : photo_url 12 3 ≡ codes "image://librekde/cardphoto/12?3"
unfolding photo_url decimal
address_text = refl

malformed : slot_from_image_id number_images (codes "cardphoto") ≡ 0
unfolding slot_from_image_id
malformed = refl

file_name : suggested_photo_file_name number_images (7 ∷ []) ≡ codes "card-photo.jpg"
unfolding suggested_photo_file_name text_eq
file_name = refl

-- A destroyed handler leaves nothing.
scrubbed : image number_images 1 (run number_images new_process (destroyed 1 ∷ [])).images ≡ 0
unfolding run image
scrubbed = refl

slot_of_address : slot_from_image_id number_images (number_images.image_id (photo_url 12 3)) ≡ 12
slot_of_address =
    slot_from_image_id-photo_url number_images 12 3 number_images-IsDocumented (omega arith)

run-shown_example :
    image number_images 1 (run number_images new_process two_widgets).images
    ≡ shown number_images 1 (run number_images new_process two_widgets).widgets
run-shown_example = run-shown number_images two_widgets 1 (omega arith)

abbrev first_widget : Photo
first_widget = record {
  slot = 1;
  token = 2;
  bytes = 9 ∷ 3 ∷ [];
  has_card_photo = true;
  card_photo_url = photo_url 1 2;
  suggested_file_name = codes "card-photo.jpg";
}

first_widget_lives : In first_widget (run number_images new_process two_widgets).widgets
unfolding run text_eq
first_widget_lives = inr (inl refl)

request_image-run_example :
    request_image number_images
      (some (run number_images new_process two_widgets).images)
      (number_images.image_id (photo_url 1 2))
      (some (4, 4))
    ≡ delivered number_images (some (4, 4)) 9
request_image-run_example =
    request_image-run number_images two_widgets first_widget (some (4, 4))
      number_images-IsDocumented (omega arith) first_widget_lives refl
