-- ===== src/Plasmoid/Photo/Shown.antt =====
-- components/plasmoid/src/SmartCardHandler.cpp: what the handler of a slot shows, and how a handler's
-- operation moves it.
use libre_kde.Base.{
  ℕ, ◌<◌, ◌≤◌, ◌≡◌, ◌≢◌, refl, sym, ap, List, [], ◌∷◌, if◌then◌else◌, ◌==◌, ==_iff, arith, All, In,
  inl, inr, pick, subst,
}
use libre_kde.Plasmoid.Photo.{Qt, Images, Photo, image}
use libre_kde.Plasmoid.Photo.Kept.{held_by, IsKept, Respects}
use libre_kde.Plasmoid.Photo.Process.{act}

-- The slots fall, from below a bound.
abbrev pub Below : ℕ → List Photo → Type 0
Below bound [] = Unit
Below bound (w ∷ ws) = (w.slot < bound) × Below w.slot ws

module _ {Image : Type 0} (qt : Qt Image) where
  -- What the handler of a slot shows: nothing where there is none.
  unfoldable pub shown : ℕ → List Photo → Image
  shown s [] = qt.no_image
  shown s (w ∷ ws) = if w.slot == s then held_by qt w else shown s ws

  pub shown-Below :
      (s bound : ℕ) (ws : List Photo) → Below bound ws → bound ≤ s → shown s ws ≡ qt.no_image
  unfolding shown
  shown-Below s bound [] b h = refl
  shown-Below s bound (w ∷ ws) b h =
      let later = shown-Below s w.slot ws b.1 in ground (arith, b.0, ==_iff w.slot s, later)

  pub In-Below :
      (bound : ℕ) (w : Photo) (ws : List Photo) → Below bound ws → In w ws → w.slot < bound
  In-Below bound w [] b i = elim i [ ]
  In-Below bound w (v ∷ ws) b (inl e) = omega (arith, b.0, ap (λ (x : Photo). x.slot) e)
  In-Below bound w (v ∷ ws) b (inr i) = omega (arith, b.0, In-Below v.slot w ws b.1 i)

  pub shown-In :
      (bound : ℕ) (w : Photo) (ws : List Photo)
      → Below bound ws
      → In w ws
      → shown w.slot ws ≡ held_by qt w
  unfolding shown
  shown-In bound w [] b i = elim i [ ]
  shown-In bound w (v ∷ ws) b (inl e) =
      ground (arith, ==_iff v.slot w.slot, ap (λ (x : Photo). x.slot) e, ap (held_by qt) e)
  shown-In bound w (v ∷ ws) b (inr i) =
      let lower = In-Below v.slot w ws b.1 i in ground (arith, lower, shown-In v.slot w ws b.1 i)

  module _ (f : Photo × Images Image → Photo × Images Image) (r : Respects qt f) (slot : ℕ) where
    pub act-Below :
        (bound : ℕ) (ws : List Photo) (images : Images Image)
        → Below bound ws
        → Below bound (act f slot (ws, images)).0
    unfolding act
    act-Below bound [] images b = b
    act-Below bound (w ∷ ws) images b =
        let rest = act-Below w.slot ws images b.1 in
        pick (λ (done : List Photo × Images Image). Below bound done.0) (w.slot == slot)
          (λ _.
            let e = r.slot w images in (omega (arith, e, b.0), subst (λ n. Below n ws) (sym e) b.1))
          (λ _. (b.0, rest))

    pub act-All :
        (ws : List Photo) (images : Images Image)
        → All (IsKept qt) ws
        → All (IsKept qt) (act f slot (ws, images)).0
    unfolding act
    act-All [] images k = tt
    act-All (w ∷ ws) images k =
        let rest = act-All ws images k.1 in
        pick (λ (done : List Photo × Images Image). All (IsKept qt) done.0) (w.slot == slot)
          (λ _. (r.kept w images k.0, k.1)) (λ _. (k.0, rest))

    pub act-image :
        (s : ℕ) (ws : List Photo) (images : Images Image)
        → s ≢ slot
        → image qt s (act f slot (ws, images)).1 ≡ image qt s images
    unfolding act
    act-image s [] images d = refl
    act-image s (w ∷ ws) images d =
        ground (arith, ==_iff w.slot slot, r.frame s w images, act-image s ws images d, d)

    pub act-shown :
        (s : ℕ) (ws : List Photo) (images : Images Image)
        → s ≢ slot
        → shown s (act f slot (ws, images)).0 ≡ shown s ws
    unfolding act shown
    act-shown s [] images d = refl
    act-shown s (w ∷ ws) images d =
        ground
          (arith, ==_iff w.slot slot, ==_iff w.slot s, r.slot w images, act-shown s ws images d, d)

    pub act-here :
        (ws : List Photo) (images : Images Image)
        → All (IsKept qt) ws
        → image qt slot images ≡ shown slot ws
        → image qt slot (act f slot (ws, images)).1 ≡ shown slot (act f slot (ws, images)).0
    unfolding act shown
    act-here [] images k e = e
    act-here (w ∷ ws) images k e =
        ground (
          arith,
          ==_iff w.slot slot,
          r.slot w images,
          r.held w images k.0,
          act-here ws images k.1,
          e,
        )
