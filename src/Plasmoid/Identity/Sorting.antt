-- ===== src/Plasmoid/Identity/Sorting.antt =====
-- components/plasmoid/src/SmartCardHandler.cpp, the std::stable_sort of `applyFieldOrder`: the rows stand
-- in the order of their ranks, and rows of one rank as they came.
use libre_kde.Base.{
  ℕ, suc, ◌≤◌, List, [], ◌∷◌, ◌≡◌, refl, if◌then◌else◌, ◌==◌, ==_iff, arith, All, length, leb,
  Bool-cases, inl, inr,
}
use libre_kde.Plasmoid.Identity.{Row}
use libre_kde.Plasmoid.Identity.Layout.{sorted_in, stable_sort}

module _ (rank : Row → ℕ) where
  abbrev pub IsSorted : List Row → Type 0
  IsSorted [] = Unit {0}
  IsSorted (r ∷ rows) = All (λ s. rank r ≤ rank s) rows × IsSorted rows

  -- The rows of one rank, as they stand.
  abbrev pub of_rank : ℕ → List Row → List Row
  of_rank k [] = []
  of_rank k (r ∷ rows) = if rank r == k then r ∷ of_rank k rows else of_rank k rows

  pub sorted_in-All {κ} :
      (P : Row → Type κ) (r : Row) (rows : List Row)
      → P r
      → All P rows
      → All P (sorted_in rank r rows)
  unfolding sorted_in
  sorted_in-All P r [] p ps = (p, tt)
  sorted_in-All P r (s ∷ rows) p ps = elim (Bool-cases (leb (rank r) (rank s))) [
    | inl low ↦ rw low (p, ps)
    | inr high ↦ rw high (ps.0, sorted_in-All P r rows p ps.1)
  ]

  pub stable_sort-All {κ} :
      (P : Row → Type κ) (rows : List Row) → All P rows → All P (stable_sort rank rows)
  unfolding stable_sort
  stable_sort-All P [] ps = tt
  stable_sort-All P (r ∷ rows) ps =
      sorted_in-All P r (stable_sort rank rows) ps.0 (stable_sort-All P rows ps.1)

  All-le :
      (m n : ℕ) (rows : List Row) → m ≤ n → All (λ s. n ≤ rank s) rows → All (λ s. m ≤ rank s) rows
  All-le m n [] h ps = tt
  All-le m n (s ∷ rows) h ps = (omega arith, All-le m n rows h ps.1)

  sorted_in-IsSorted :
      (r : Row) (rows : List Row) → IsSorted rows → IsSorted (sorted_in rank r rows)
  unfolding sorted_in
  sorted_in-IsSorted r [] h = (tt, tt)
  sorted_in-IsSorted r (s ∷ rows) h = elim (Bool-cases (leb (rank r) (rank s))) [
    | inl low ↦ rw low ((ground arith, All-le (rank r) (rank s) rows (ground arith) h.0), h)
    | inr high ↦ rw high (
      sorted_in-All (λ t. rank s ≤ rank t) r rows (ground arith) h.0,
      sorted_in-IsSorted r rows h.1,
    )
  ]

  pub stable_sort-IsSorted : (rows : List Row) → IsSorted (stable_sort rank rows)
  unfolding stable_sort
  stable_sort-IsSorted [] = tt
  stable_sort-IsSorted (r ∷ rows) =
      sorted_in-IsSorted r (stable_sort rank rows) (stable_sort-IsSorted rows)

  of_rank-sorted_in :
      (k : ℕ) (r : Row) (rows : List Row) → of_rank k (sorted_in rank r rows) ≡ of_rank k (r ∷ rows)
  unfolding sorted_in
  of_rank-sorted_in k r [] = refl
  of_rank-sorted_in k r (s ∷ rows) =
      ground (arith, ==_iff (rank r) k, ==_iff (rank s) k, of_rank-sorted_in k r rows)

  pub of_rank-stable_sort :
      (k : ℕ) (rows : List Row) → of_rank k (stable_sort rank rows) ≡ of_rank k rows
  unfolding stable_sort
  of_rank-stable_sort k [] = refl
  of_rank-stable_sort k (r ∷ rows) =
      ground (arith, of_rank-sorted_in k r (stable_sort rank rows), of_rank-stable_sort k rows)

  length-sorted_in :
      (r : Row) (rows : List Row) → length (sorted_in rank r rows) ≡ suc (length rows)
  unfolding sorted_in
  length-sorted_in r [] = refl
  length-sorted_in r (s ∷ rows) = ground (arith, length-sorted_in r rows)

  pub length-stable_sort : (rows : List Row) → length (stable_sort rank rows) ≡ length rows
  unfolding stable_sort
  length-stable_sort [] = refl
  length-stable_sort (r ∷ rows) =
      omega (arith, length-sorted_in r (stable_sort rank rows), length-stable_sort rows)
