-- ===== src/Kio/Tree/Paths.antt =====
-- components/kio/CardTree.cpp, `segments`: how a path falls into segments.
use libre_kde.Base.{
  ℕ, false, ◌≡◌, refl, ap, ◌∙◌, ◌≢◌, Text, is_empty, List, [], ◌∷◌, ◌++◌, All, arith, ==_iff,
}
use libre_kde.Kio.Tree.{push_unit, split, skip_empty_parts, segments}

-- A text that can stand as one segment of a path.
abbrev pub IsSegment : Text → Type 0
IsSegment s = (is_empty s ≡ false) × All (λ c. c ≢ b'/') s

split-ne-nil : (sep : ℕ) (s : Text) → split sep s ≢ []
unfolding split
split-ne-nil sep [] = λ e. cc
split-ne-nil sep (c ∷ s) = grind arith

push_unit-append :
    (c : ℕ) (xs ys : List Text) → xs ≢ [] → push_unit c (xs ++ ys) ≡ push_unit c xs ++ ys
unfolding push_unit
push_unit-append c [] ys h = absurd (h refl)
push_unit-append c (x ∷ xs) ys h = refl

split-append : (sep : ℕ) (s t : Text) → split sep (s ++ sep ∷ t) ≡ split sep s ++ split sep t
unfolding split
split-append sep [] t = ground (arith, ==_iff sep sep)
split-append sep (c ∷ s) t = ground (
  arith,
  split-append sep s t,
  push_unit-append c (split sep s) (split sep t) (split-ne-nil sep s),
)

split_whole : (sep : ℕ) (s : Text) → All (λ c. c ≢ sep) s → split sep s ≡ s ∷ []
unfolding split
split_whole sep [] h = refl
split_whole sep (c ∷ s) h = ground (arith, ==_iff c sep, h.0, split_whole sep s h.1)

skip_empty_parts-append :
    (xs ys : List Text) → skip_empty_parts (xs ++ ys) ≡ skip_empty_parts xs ++ skip_empty_parts ys
unfolding skip_empty_parts
skip_empty_parts-append [] ys = refl
skip_empty_parts-append (x ∷ xs) ys = ground (arith, skip_empty_parts-append xs ys)

-- A path extended by a name has that name as its one further segment.
pub segments-append :
    (path name : Text)
    → IsSegment name
    → segments (path ++ b'/' ∷ name) ≡ segments path ++ name ∷ []
unfolding segments
segments-append path name h =
    ap skip_empty_parts (split-append b'/' path name)
    ∙ skip_empty_parts-append (split b'/' path) (split b'/' name)
    ∙ ap (◌++◌ (segments path)) (ground (arith, split_whole b'/' name h.1, h.0))
