-- ===== src/Signing/Seams.antt =====
-- shared/signing/SignSeams.cpp: the dialogs that ask which certificate and which card signs.
use libre_kde.Base.{
  ℕ, zero, suc, Text, codes, is_empty, List, [], ◌∷◌, ◌++◌, Option, none, some, if◌then◌else◌, ltb,
  length, map, get_elem?, In, inl, inr, ◌≡◌, arith, Option-cases,
}
use libre_kde.Shared.ErrorText.{Texts, say}
use libre_kde.Shared.Registry.{AgentClient}
use libre_kde.Kio.Source.{DateTime, CertificateInfo}
use libre_kde.Kio.Folders.{arg}
use libre_kde.Signing.Selection.{CardChoice, CardChooser}

-- How a modal dialog ends: with the combo box's current row, none where that is negative.
pub data DialogEnd : Type 0 where
  rejected : DialogEnd
  accepted : Option ℕ → DialogEnd

-- A dialog's part, of its title, its prompt and its rows.
abbrev pub Dialog : Type 0
Dialog = Text → Text → List Text → DialogEnd

row_in : List Text → DialogEnd → Option ℕ
row_in labels rejected = none
row_in labels (accepted none) = none
row_in labels (accepted (some row)) = if ltb row (length labels) then some row else none

-- `chooseByIndex`.
unfoldable pub choose_by_index : Dialog → Text → Text → List Text → Option ℕ
unfolding row_in
choose_by_index dialog title prompt labels = row_in labels (dialog title prompt labels)

-- The label of a certificate; `short_date` is the user's local short form of a date.
cert_label : (DateTime → Text) → CertificateInfo → Text
unfolding arg
cert_label short_date c =
    (if is_empty c.subject then c.id else c.subject)
    ++ (if c.not_after.is_valid then arg (codes " — %1") (short_date c.not_after) else [])

unfoldable pub card_label : CardChoice → Text
unfolding arg
card_label c =
    (if is_empty c.reader_name then c.card_id else c.reader_name)
    ++ (if is_empty c.card_type then [] else arg (codes " — %1") c.card_type)

-- What is read of the candidate at a row.
answer_at : {A : Type 0} → (A → Text) → List A → Option ℕ → Option Text
answer_at id_of candidates none = none
answer_at id_of candidates (some row) = elim (get_elem? candidates row) [
  | none ↦ none
  | some c ↦ some (id_of c)
]

-- `widgetCertChooser`.
unfoldable pub widget_cert_chooser :
    Texts → (DateTime → Text) → Dialog → List CertificateInfo → Option Text
unfolding answer_at choose_by_index cert_label
widget_cert_chooser texts short_date dialog candidates =
    answer_at (λ c. c.id) candidates
      (choose_by_index dialog (say texts (codes "Choose a Signing Certificate"))
        (say texts (codes "This card has several signing certificates. Choose one:"))
        (map (cert_label short_date) candidates))

-- `widgetCardChooser`: the registry moves while its dialog is open, and is given back.
unfoldable pub widget_card_chooser : Texts → Dialog → AgentClient → CardChooser
unfolding answer_at choose_by_index card_label
widget_card_chooser texts dialog after = some λ candidates. (
  answer_at (λ c. c.card_id) candidates
      (choose_by_index dialog (say texts (codes "Choose a Card to Sign With"))
        (say texts (codes "More than one card can sign. Choose one:")) (map card_label candidates)),
  after,
)

In-get_elem? : {A : Type 0} (x : A) (xs : List A) (i : ℕ) → get_elem? xs i ≡ some x → In x xs
In-get_elem? x [] i e = absurd (ground arith)
In-get_elem? x (y ∷ xs) zero e = inl (ground arith)
In-get_elem? x (y ∷ xs) (suc i) e = inr (In-get_elem? x xs i e)

answer_at-In :
    {A : Type 0} (id_of : A → Text) (candidates : List A) (row : Option ℕ) (id : Text)
    → answer_at id_of candidates row ≡ some id
    → (c : A) × In c candidates × (id_of c ≡ id)
unfolding answer_at
answer_at-In id_of candidates none id e = absurd (ground arith)
answer_at-In id_of candidates (some row) id e = elim (Option-cases (get_elem? candidates row)) [
  | inl f ↦ absurd (ground arith)
  | inr (c, f) ↦ (c, In-get_elem? c candidates row f, ground arith)
]

-- Whatever the user does, an answer of the dialog is the id of a certificate that was offered.
pub widget_cert_chooser-In :
    (texts : Texts) (short_date : DateTime → Text) (dialog : Dialog)
    (candidates : List CertificateInfo) (id : Text)
    → widget_cert_chooser texts short_date dialog candidates ≡ some id
    → (c : CertificateInfo) × In c candidates × (c.id ≡ id)
unfolding widget_cert_chooser
widget_cert_chooser-In texts short_date dialog candidates id e =
    answer_at-In (λ c. c.id) candidates _ id e
