-- ===== src/Plasmoid/Photo/Process.antt =====
-- components/plasmoid/src/SmartCardHandler.cpp: the handlers of a process, over one counter of slots
-- and one store of photos.
use libre_kde.Base.{ℕ, ◌+◌, ◌%◌, ◌^◌, false, List, [], ◌∷◌, Option, if◌then◌else◌, ◌==◌}
use libre_kde.Shared.Agent.{OperationStatus}
use libre_kde.Plasmoid.Photo.{Qt, Images, Photo, on_photo_finished, clear_photo, clear}

-- The live handlers, the latest made first.
pub record Process (Image : Type 0) : Type 0 where
  pub counter : ℕ
  pub widgets : List Photo
  pub images : Images Image

-- What happens to the photo of the handler that has a slot; the bound card changes by `clearPhoto`.
pub data Event : Type 0 where
  created : Event
  destroyed : (slot : ℕ) → Event
  photo_finished : (slot : ℕ) → OperationStatus → List (Option (List ℕ)) → Event
  card_changed : (slot : ℕ) → Event

-- `nextPhotoSlot`: the counter after it, which is the slot.
unfoldable pub next_photo_slot : ℕ → ℕ
next_photo_slot counter = (counter + 1) % 2 ^ 64

-- The photo members that a handler is made with.
abbrev pub new_photo : ℕ → Photo
new_photo slot = record {
  slot = slot;
  token = 0;
  bytes = [];
  has_card_photo = false;
  card_photo_url = [];
  suggested_file_name = [];
}

-- The handlers but the one that has the slot.
unfoldable pub without : ℕ → List Photo → List Photo
without slot [] = []
without slot (w ∷ ws) = let rest = without slot ws in if w.slot == slot then ws else w ∷ rest

module _ {Image : Type 0} where
  -- A handler's operation, on the handler that has the slot.
  unfoldable pub act :
      (Photo × Images Image → Photo × Images Image)
      → ℕ
      → List Photo × Images Image
      → List Photo × Images Image
  act f slot ([], images) = ([], images)
  act f slot (w ∷ ws, images) =
      let rest = act f slot (ws, images) in
      let done = f (w, images) in
      if w.slot == slot then (done.0 ∷ ws, done.1) else (w ∷ rest.0, rest.1)

  unfoldable pub on_widget :
      (Photo × Images Image → Photo × Images Image) → ℕ → Process Image → Process Image
  unfolding act
  on_widget f slot p =
      let done = act f slot (p.widgets, p.images) in record p { widgets = done.0; images = done.1 }

module _ {Image : Type 0} (qt : Qt Image) where
  -- `SmartCardHandler` and its destructor, `onPhotoFinished` and `bindCard`.
  unfoldable pub step : Process Image → Event → Process Image
  unfolding next_photo_slot on_photo_finished clear_photo clear on_widget without
  step p created =
      let slot = next_photo_slot p.counter in
      record p { counter = slot; widgets = new_photo slot ∷ p.widgets }
  step p (destroyed slot) = record p {
    widgets = without slot p.widgets;
    images = clear slot p.images;
  }
  step p (photo_finished slot status photos) = on_widget (on_photo_finished qt status photos) slot p
  step p (card_changed slot) = on_widget (clear_photo qt) slot p

  unfoldable pub run : Process Image → List Event → Process Image
  unfolding step
  run p [] = p
  run p (e ∷ events) = run (step p e) events

-- The process before a handler is made.
abbrev pub new_process : {Image : Type 0} → Process Image
new_process = record { counter = 0; widgets = []; images = [] }
