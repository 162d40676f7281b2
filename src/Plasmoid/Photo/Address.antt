-- ===== src/Plasmoid/Photo/Address.antt =====
-- components/plasmoid/src, `cardPhotoUrl` and `slotFromImageId`: the address of a photo names its slot.
use mathlib.Core.List.{append-nil}
use libre_kde.Base.{
  ℕ, ◌+◌, ◌-◌, ◌^◌, ◌<◌, ◌≤◌, ◌≡◌, ◌≢◌, ◌⊎◌, inl, refl, ap, subst, ◌∙◌, Text, codes, [], ◌∷◌, ◌++◌,
  All, All-append, some, arith, length, take, ==_iff,
}
use libre_kde.Base.Decimal.{decimal, decimal-IsDigit, IsDigit}
use libre_kde.Kio.Folders.Names.{arg-append}
use libre_kde.Plasmoid.Photo.{
  Qt, photo_url, index_of, slot_end, slot_behind, or_zero, slot_from_image_id,
}

-- Nothing but characters that stand in an address as they are.
abbrev pub IsPlain : Text → Type 0
IsPlain = All λ c. ((b'/' ≤ c) × (c ≤ b'9')) ⊎ ((b'a' ≤ c) × (c ≤ b'z')) ⊎ (c ≡ b'?')

-- Documented of Qt: the id is the address without `image://` and the provider's name, where the rest
-- needs no encoding, and a numeral below 2^64 is read as its number.
pub record IsDocumented {Image : Type 0} (qt : Qt Image) : Type 0 where
  pub image_id :
      (path : Text) → IsPlain path → qt.image_id (codes "image://librekde/" ++ path) ≡ path
  pub to_ulonglong : (n : ℕ) → n < 2 ^ 64 → qt.to_ulonglong (decimal n) ≡ some n

digits_lack : (c : ℕ) (s : Text) → ¬ IsDigit c → All IsDigit s → All (λ x. x ≢ c) s
digits_lack c [] h d = tt
digits_lack c (x ∷ s) h d = (λ e. h (subst IsDigit e d.0), digits_lack c s h d.1)

digits-IsPlain : (s : Text) → All IsDigit s → IsPlain s
digits-IsPlain [] d = tt
digits-IsPlain (c ∷ s) d = (inl (omega (arith, d.0)), digits-IsPlain s d.1)

-- The text behind the provider's name.
path : ℕ → ℕ → Text
path slot token = codes "cardphoto/" ++ (decimal slot ++ b'?' ∷ decimal token)

path-IsPlain : (slot token : ℕ) → IsPlain (path slot token)
unfolding path
path-IsPlain slot token = All-append _ (codes "cardphoto/") _ (omega arith) (
    All-append _ (decimal slot) _ (digits-IsPlain _ (decimal-IsDigit slot))
      (omega arith, digits-IsPlain _ (decimal-IsDigit token)))

photo_url-path :
    (slot token : ℕ) → photo_url slot token ≡ codes "image://librekde/" ++ path slot token
unfolding photo_url path
photo_url-path slot token =
    let pre = codes "image://librekde/cardphoto/" in
    arg-append (pre ++ decimal slot) (codes "?%2") (decimal token) (
      All-append _ pre _ (omega arith)
        (digits_lack b'%' (decimal slot) (λ d. omega (arith, d)) (decimal-IsDigit slot)))
    ∙ ap (λ (t : Text). pre ++ (decimal slot ++ b'?' ∷ t)) (append-nil (decimal token))

index_of-append :
    (c : ℕ) (s t : Text) → All (λ x. x ≢ c) s → index_of c (s ++ c ∷ t) ≡ some (length s)
unfolding index_of
index_of-append c [] t h = ground (arith, ==_iff c c)
index_of-append c (x ∷ s) t h = ground (arith, ==_iff x c, h.0, index_of-append c s t h.1)

take-append : (s t : Text) → take (length s) (s ++ t) ≡ s
take-append [] t = refl
take-append (x ∷ s) t = rw (take-append s t)

slot_end-path : (slot token : ℕ) → slot_end 9 (path slot token) ≡ 10 + length (decimal slot)
unfolding slot_end path
slot_end-path slot token =
    let digits = digits_lack b'?' (decimal slot) (λ d. omega (arith, d)) (decimal-IsDigit slot) in
    rw (index_of-append b'?' (decimal slot) (decimal token) digits, slot_end) (omega arith)

slot_from_path :
    {Image : Type 0} (qt : Qt Image) (slot token : ℕ)
    → slot_from_image_id qt (path slot token) ≡ or_zero (qt.to_ulonglong (decimal slot))
unfolding slot_from_image_id slot_behind path
slot_from_path qt slot token =
    let digits = decimal slot in
    let width : slot_end 9 (path slot token) - 9 - 1 ≡ length digits =
      omega (arith, slot_end-path slot token) in
    ap (λ (n : ℕ). or_zero (qt.to_ulonglong (take n (digits ++ b'?' ∷ decimal token)))) width
    ∙ ap (λ (s : Text). or_zero (qt.to_ulonglong s)) (take-append digits (b'?' ∷ decimal token))

-- Where Qt reads an address and a numeral as documented, the provider finds in the address of a photo
-- the slot that the address was built with, for every slot of 64 bits and whatever the token.
pub slot_from_image_id-photo_url :
    {Image : Type 0} (qt : Qt Image) (slot token : ℕ)
    → IsDocumented qt
    → slot < 2 ^ 64
    → slot_from_image_id qt (qt.image_id (photo_url slot token)) ≡ slot
unfolding or_zero
slot_from_image_id-photo_url qt slot token doc h =
    ap (λ (s : Text). slot_from_image_id qt (qt.image_id s)) (photo_url-path slot token)
    ∙ ap (slot_from_image_id qt) (doc.image_id (path slot token) (path-IsPlain slot token))
    ∙ slot_from_path qt slot token
    ∙ ap or_zero (doc.to_ulonglong slot h)
