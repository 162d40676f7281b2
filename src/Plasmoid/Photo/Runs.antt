-- ===== src/Plasmoid/Photo/Runs.antt =====
-- components/plasmoid/src, the photos of the widgets: whatever happens to the handlers, the provider
-- serves for each what it shows.
use libre_kde.Base.{
  ℕ, suc, ◌+◌, ◌^◌, ◌<◌, ◌≤◌, ◌≡◌, ◌≢◌, refl, sym, ap, ◌∙◌, true, List, [], ◌∷◌, some,
  if◌then◌else◌, ◌==◌, ==_iff, arith, All, In, inl, inr, Bool-cases, pick, subst,
}
use libre_kde.Plasmoid.Photo.{
  Qt, Images, Photo, Size, photo_url, image, request_image, delivered, slot_from_image_id,
}
use libre_kde.Plasmoid.Photo.Address.{IsDocumented, slot_from_image_id-photo_url}
use libre_kde.Plasmoid.Photo.Kept.{
  IsKept, Respects, image-clear, clear_photo-Respects, on_photo_finished-Respects,
}
use libre_kde.Plasmoid.Photo.Process.{
  Process, Event, created, destroyed, photo_finished, card_changed, next_photo_slot, new_photo, act,
  without, on_widget, step, new_process, run,
}
use libre_kde.Plasmoid.Photo.Shown.{
  Below, shown, shown-Below, shown-In, In-Below, act-Below, act-All, act-image, act-shown, act-here,
}

-- How many handlers a run makes.
abbrev pub created_in : List Event → ℕ
created_in [] = 0
created_in (created ∷ events) = suc (created_in events)
created_in (e ∷ events) = created_in events

All-In : (P : Photo → Type 0) (w : Photo) (ws : List Photo) → All P ws → In w ws → P w
All-In P w [] k i = elim i [ ]
All-In P w (v ∷ ws) k (inl e) = subst P (sym e) k.0
All-In P w (v ∷ ws) k (inr i) = All-In P w ws k.1 i

created_in-head : (e : Event) (events : List Event) → created_in (e ∷ []) ≤ created_in (e ∷ events)
created_in-head created events = omega arith
created_in-head (destroyed slot) events = omega arith
created_in-head (photo_finished slot status photos) events = omega arith
created_in-head (card_changed slot) events = omega arith

Below-le : (bound limit : ℕ) (ws : List Photo) → Below bound ws → bound ≤ limit → Below limit ws
Below-le bound limit [] b h = tt
Below-le bound limit (w ∷ ws) b h = (omega (arith, b.0), b.1)

without-Below : (slot bound : ℕ) (ws : List Photo) → Below bound ws → Below bound (without slot ws)
unfolding without
without-Below slot bound [] b = tt
without-Below slot bound (w ∷ ws) b =
    let rest = without-Below slot w.slot ws b.1 in
    pick (Below bound) (w.slot == slot) (λ _. Below-le w.slot bound ws b.1 (omega (arith, b.0)))
      (λ _. (b.0, rest))

module _ {Image : Type 0} (qt : Qt Image) where
  without-All :
      (slot : ℕ) (ws : List Photo) → All (IsKept qt) ws → All (IsKept qt) (without slot ws)
  unfolding without
  without-All slot [] k = tt
  without-All slot (w ∷ ws) k =
      let rest = without-All slot ws k.1 in
      pick (All (IsKept qt)) (w.slot == slot) (λ _. k.1) (λ _. (k.0, rest))

  shown-without :
      (s slot bound : ℕ) (ws : List Photo)
      → Below bound ws
      → shown qt s (without slot ws) ≡ (if slot == s then qt.no_image else shown qt s ws)
  unfolding shown without
  shown-without s slot bound [] b = ground arith
  shown-without s slot bound (w ∷ ws) b = ground (
    arith,
    ==_iff w.slot slot,
    ==_iff w.slot s,
    ==_iff slot s,
    shown-Below qt s w.slot ws b.1,
    shown-without s slot w.slot ws b.1,
  )

  -- The slots fall from the counter, the handlers' members agree, and the store holds what is shown.
  pub record IsShown (p : Process Image) : Type 0 where
    pub ordered : Below (p.counter + 1) p.widgets
    pub kept : All (IsKept qt) p.widgets
    pub images : (s : ℕ) → image qt s p.images ≡ shown qt s p.widgets

  on_widget-IsShown :
      (f : Photo × Images Image → Photo × Images Image) (slot : ℕ) (p : Process Image)
      → Respects qt f
      → IsShown p
      → IsShown (on_widget f slot p)
  unfolding on_widget
  on_widget-IsShown f slot p r h = record {
    ordered = act-Below qt f r slot (p.counter + 1) p.widgets p.images h.ordered;
    kept = act-All qt f r slot p.widgets p.images h.kept;
    images = λ s. elim (Bool-cases (s == slot)) [
      | inl here ↦
          let e : slot ≡ s = sym ((==_iff s slot).0 here) in
          subst
            (λ n.
              image qt n (act f slot (p.widgets, p.images)).1
              ≡ shown qt n (act f slot (p.widgets, p.images)).0)
            e (act-here qt f r slot p.widgets p.images h.kept (h.images slot))
      | inr away ↦
          let d : s ≢ slot = λ e. ground (arith, ==_iff s slot, e, away) in
          act-image qt f r slot s p.widgets p.images d
          ∙ h.images s
          ∙ sym (act-shown qt f r slot s p.widgets p.images d)
    ];
  }

  created-IsShown :
      (p : Process Image) (slot : ℕ)
      → slot ≡ p.counter + 1
      → IsShown p
      → IsShown (record p { counter = slot; widgets = new_photo slot ∷ p.widgets })
  created-IsShown p slot e h = record {
    ordered = (omega arith, subst (λ n. Below n p.widgets) (sym e) h.ordered);
    kept = (record { address = refl; bytes = refl; decodes = λ f. ground arith }, h.kept);
    images = λ s.
        let none_yet = shown-Below qt s (p.counter + 1) p.widgets h.ordered in
        unfold shown in ground (arith, e, ==_iff slot s, none_yet, h.images s);
  }

  -- The counter and the handlers that are still to be made do not grow in sum.
  step-counter :
      (p : Process Image) (e : Event) (events : List Event)
      → (step qt p e).counter + created_in events ≤ p.counter + created_in (e ∷ events)
  unfolding step next_photo_slot on_widget
  step-counter p created events = omega arith
  step-counter p (destroyed slot) events = omega arith
  step-counter p (photo_finished slot status photos) events = omega arith
  step-counter p (card_changed slot) events = omega arith

  run-counter :
      (p : Process Image) (events : List Event)
      → (run qt p events).counter ≤ p.counter + created_in events
  unfolding run
  run-counter p [] = omega arith
  run-counter p (e ∷ events) =
      omega (arith, step-counter p e events, run-counter (step qt p e) events)

  step-IsShown :
      (p : Process Image) (e : Event)
      → p.counter + created_in (e ∷ []) < 2 ^ 64
      → IsShown p
      → IsShown (step qt p e)
  unfolding step next_photo_slot
  step-IsShown p created c h = created-IsShown p _ (omega arith) h
  step-IsShown p (destroyed slot) c h = record {
    ordered = without-Below slot (p.counter + 1) p.widgets h.ordered;
    kept = without-All slot p.widgets h.kept;
    images = λ s.
        let gone = image-clear qt s slot p.images in
        let here = shown-without s slot (p.counter + 1) p.widgets h.ordered in
        ground (arith, gone, here, h.images s);
  }
  step-IsShown p (photo_finished slot status photos) c h =
      on_widget-IsShown _ slot p (on_photo_finished-Respects qt status photos) h
  step-IsShown p (card_changed slot) c h = on_widget-IsShown _ slot p (clear_photo-Respects qt) h

  pub run-IsShown :
      (events : List Event) (p : Process Image)
      → p.counter + created_in events < 2 ^ 64
      → IsShown p
      → IsShown (run qt p events)
  unfolding run
  run-IsShown [] p c h = h
  run-IsShown (e ∷ events) p c h =
      run-IsShown events (step qt p e) (omega (arith, step-counter p e events, c))
        (step-IsShown p e (omega (arith, created_in-head e events, c)) h)

  new_process-IsShown : IsShown new_process
  unfolding shown image
  new_process-IsShown = record { ordered = tt; kept = tt; images = λ s. refl }

  -- Whatever happens to the handlers of a process that makes fewer than 2^64 of them, the store holds
  -- for every slot the photo that the live handler of that slot shows, and nothing for a slot of no
  -- live handler.
  pub run-shown :
      (events : List Event) (s : ℕ)
      → created_in events < 2 ^ 64
      → image qt s (run qt new_process events).images
        ≡ shown qt s (run qt new_process events).widgets
  run-shown events s c =
      (run-IsShown events new_process (omega (arith, c)) new_process-IsShown).images s

  -- Where Qt reads an address and a numeral as documented: after any events of a process that makes fewer than
  -- 2^64 handlers, the provider gives at the address of a handler that has a photo the image that the
  -- handler's own bytes decode to, fitted to the size that is asked for.
  pub request_image-run :
      (events : List Event) (w : Photo) (wanted : Size)
      → IsDocumented qt
      → created_in events < 2 ^ 64
      → In w (run qt new_process events).widgets
      → w.has_card_photo ≡ true
      → request_image qt
          (some (run qt new_process events).images)
          (qt.image_id w.card_photo_url)
          wanted
        ≡ delivered qt wanted (qt.from_data w.bytes)
  unfolding request_image
  request_image-run events w wanted doc c i has =
      let p = run qt new_process events in
      let kept = run-IsShown events new_process (omega (arith, c)) new_process-IsShown in
      let below = In-Below qt (p.counter + 1) w p.widgets kept.ordered i in
      let slot =
        slot_from_image_id-photo_url qt w.slot w.token doc
          (omega (arith, below, run-counter new_process events, c)) in
      let url : w.card_photo_url ≡ photo_url w.slot w.token =
        let a = (All-In (IsKept qt) w p.widgets kept.kept i).address in ground (arith, a, has) in
      let held : image qt w.slot p.images ≡ qt.from_data w.bytes =
        let e = kept.images w.slot ∙ shown-In qt (p.counter + 1) w p.widgets kept.ordered i in
        ground (arith, e, has) in
      ap (λ u. delivered qt wanted (image qt (slot_from_image_id qt (qt.image_id u)) p.images)) url
      ∙ ap (λ n. delivered qt wanted (image qt n p.images)) slot
      ∙ ap (delivered qt wanted) held
