-- ===== src/Plasmoid/Identity/Ranks.antt =====
-- components/plasmoid/src/SmartCardHandler.cpp, `applyFieldOrder`: the rank of a row in its group's order.
use libre_kde.Base.{
  ℕ, suc, ◌+◌, false, Text, text_eq, text_eq_iff, List, [], ◌∷◌, some, ◌≡◌, refl, ap, subst, ◌⊎◌,
  inl, inr, arith, Bool-cases, length, take, get_elem?,
}
use libre_kde.Base.Groups.{contains}
use libre_kde.Plasmoid.Identity.{Row}
use libre_kde.Plasmoid.Identity.Layout.{index_from, rank}

-- The place is the first that the order has for the key, or the end where it has none.
abbrev pub IsFirstPlace : Text → List Text → ℕ → Type 0
IsFirstPlace key order i =
    (contains key (take i order) ≡ false) × ((get_elem? order i ≡ some key) ⊎ (i ≡ length order))

index_from-IsFirstPlace :
    (i : ℕ) (key : Text) (order : List Text)
    → (j : ℕ) × (index_from i key order ≡ i + j) × IsFirstPlace key order j
unfolding index_from contains
index_from-IsFirstPlace i key [] = (0, omega arith, (refl, inr refl))
index_from-IsFirstPlace i key (k ∷ order) =
    let (j, e, (absent, there)) = index_from-IsFirstPlace (suc i) key order in
    elim (Bool-cases (text_eq k key)) [
      | inl same ↦ (0, rw same (omega arith), (refl, inl (ap some ((text_eq_iff k key).0 same))))
      | inr other ↦ (
        suc j,
        rw other (omega (arith, e)),
        (
          rw (other, absent) refl,
          elim there [ inl named ↦ inl named | inr last ↦ inr (ap suc last) ],
        ),
      )
    ]

pub rank-IsFirstPlace :
    (order : List Text) (row : Row) → IsFirstPlace row.field_key order (rank order row)
unfolding rank
rank-IsFirstPlace order row =
    let (j, e, place) = index_from-IsFirstPlace 0 row.field_key order in
    let same : j ≡ index_from 0 row.field_key order = omega (arith, e) in
    subst (IsFirstPlace row.field_key order) same place
