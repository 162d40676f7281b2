-- ===== src/Kio/Render/Export.antt =====
-- components/kio/CardRenderers.cpp: `derToPem`, and the purpose of a certificate.
use native.Mathlib.Nat.{zero-add, suc-add}
use libre_kde.Base.{
  ℕ, zero, suc, ◌+◌, ◌≤◌, ◌<◌, is_empty, List, [], ◌∷◌, ◌++◌, ◌≡◌, refl, ap, sym, ◌∙◌, arith,
  if◌then◌else◌, Bool-cases, inl, inr, length, take, drop, take-append-drop, length-take-le,
  length-drop, ltb, All,
}
use libre_kde.Kio.Render.{primary_purpose, key_usage_purposes, default_render_labels, usage_name}
use libre_kde.Kio.Render.Leaves.{pem_begin, pem_end, wrap_from, der_to_pem}

-- The lines of the body: pieces of at most 64 characters.
pub body_lines : ℕ → ℕ → List ℕ → List (List ℕ)
body_lines zero i b64 = []
body_lines (suc fuel) i b64 =
    let rest = body_lines fuel (i + 64) b64 in
    if ltb i (length b64) then take 64 (drop i b64) ∷ rest else []

pub joined : List (List ℕ) → List ℕ
joined [] = []
joined (l ∷ ls) = l ++ joined ls

pub with_breaks : List (List ℕ) → List ℕ
with_breaks [] = []
with_breaks (l ∷ ls) = l ++ b'\n' ∷ with_breaks ls

wrap_from-breaks :
    (fuel i : ℕ) (b64 : List ℕ) → wrap_from fuel i b64 ≡ with_breaks (body_lines fuel i b64)
unfolding wrap_from body_lines with_breaks
wrap_from-breaks zero i b64 = refl
wrap_from-breaks (suc fuel) i b64 = ground (arith, wrap_from-breaks fuel (i + 64) b64)

drop-nil : (n : ℕ) → drop {A = ℕ} n [] ≡ []
drop-nil zero = refl
drop-nil (suc n) = refl

drop-drop : (m n : ℕ) (xs : List ℕ) → drop m (drop n xs) ≡ drop (n + m) xs
drop-drop m zero xs = rw zero-add
drop-drop m (suc n) [] = drop-nil m ∙ sym (drop-nil (suc n + m))
drop-drop m (suc n) (x ∷ xs) = rw suc-add (drop-drop m n xs)

drop_all : (n : ℕ) (xs : List ℕ) → length xs ≤ n → drop n xs ≡ []
drop_all n [] h = drop-nil n
drop_all zero (x ∷ xs) h = elim h [ ]
drop_all (suc n) (x ∷ xs) h = drop_all n xs (omega arith)

joined-lines :
    (fuel i : ℕ) (b64 : List ℕ)
    → length b64 ≤ fuel + i
    → joined (body_lines fuel i b64) ≡ drop i b64
unfolding joined body_lines
joined-lines zero i b64 h = sym (drop_all i b64 (omega arith))
joined-lines (suc fuel) i b64 h = elim (Bool-cases (ltb i (length b64))) [
  | inl more ↦
      rw (more, joined-lines fuel (i + 64) b64 (omega arith), ← drop-drop 64 i b64)
        (take-append-drop 64 (drop i b64))
  | inr done ↦ rw done (sym (drop_all i b64 (ground arith)))
]

take_pos : (n : ℕ) (xs : List ℕ) → 0 < length xs → 0 < length (take (suc n) xs)
take_pos n [] h = h
take_pos n (x ∷ xs) h = omega arith

abbrev pub IsLine : List ℕ → Type 0
IsLine l = (0 < length l) × (length l ≤ 64)

lines-IsLine : (fuel i : ℕ) (b64 : List ℕ) → All IsLine (body_lines fuel i b64)
unfolding body_lines
lines-IsLine zero i b64 = tt
lines-IsLine (suc fuel) i b64 = elim (Bool-cases (ltb i (length b64))) [
  | inl more ↦ rw more (
    (take_pos 63 (drop i b64) (ground (arith, length-drop i b64)), length-take-le 64 (drop i b64)),
    lines-IsLine fuel (i + 64) b64,
  )
  | inr done ↦ rw done tt
]

-- The PEM text is the begin line, then lines of 1 to 64 characters that together are the whole base64
-- text, each with its line break, and then the end line: the loop ends only when all is written.
pub der_to_pem_lines :
    (to_base64 : List ℕ → List ℕ) (der : List ℕ)
    → let b64 = to_base64 der in
      let lines = body_lines (length b64) 0 b64 in
      (der_to_pem to_base64 der ≡ pem_begin ++ (with_breaks lines ++ pem_end))
      × (joined lines ≡ b64)
      × All IsLine lines
unfolding der_to_pem
der_to_pem_lines to_base64 der =
    let b64 = to_base64 der in
    (
      ap (λ (t : List ℕ). pem_begin ++ (t ++ pem_end)) (wrap_from-breaks (length b64) 0 b64),
      joined-lines (length b64) 0 b64 (omega arith),
      lines-IsLine (length b64) 0 b64,
    )

-- The folder of a certificate falls back to its bare id exactly when the key usage names no purpose.
pub primary_purpose-empty :
    (bits : ℕ)
    → is_empty (primary_purpose bits default_render_labels)
      ≡ is_empty (key_usage_purposes bits default_render_labels)
unfolding primary_purpose key_usage_purposes default_render_labels usage_name
primary_purpose-empty bits = ground arith
