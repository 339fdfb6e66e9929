-- ===== src/Rows/Ids.antt =====
-- Row ids of rust/src/state.rs under UPDATE, DELETE and upserts.
use megaserver.Common.{
  ℕ, ◌+◌, ◌≤◌, ◌<◌, ◌≡◌, Bool, List, [], ◌∷◌, arith, All, All-weaken, Bool-cases, inl, inr, select,
}
use megaserver.Rows.{Table, Stamp, KeyEq, find, update, delete, upsert, is_some}
use megaserver.Rows.Order.{HasGrowingIds, HasRowIds, insert-HasRowIds}

module _ {R K : Type 0} ⦃e : KeyEq K⦄ (key : R → K) (id : R → ℕ) where
  All-update :
      (P : ℕ → Type 0) (k : K) (f : R → R)
      → ((r : R) → id (f r) ≡ id r)
      → (rs : List R) → All (λ r. P (id r)) rs
      → All (λ r. P (id r)) (update key k f rs)
  unfolding update
  All-update P k f keeps [] h = tt
  All-update P k f keeps (r ∷ rs) (p, h) = elim (Bool-cases (e.same (key r) k)) [
    | inl here ↦ rw (here, keeps r) (p, All-update P k f keeps rs h)
    | inr other ↦ rw other (p, All-update P k f keeps rs h)
  ]

  All-delete : (P : R → Type 0) (k : K) (rs : List R) → All P rs → All P (delete key k rs)
  unfolding delete
  All-delete P k [] h = tt
  All-delete P k (r ∷ rs) (p, h) = elim (Bool-cases (e.same (key r) k)) [
    | inl here ↦ rw here (All-delete P k rs h)
    | inr other ↦ rw other (p, All-delete P k rs h)
  ]

  HasGrowingIds-update :
      (k : K) (f : R → R)
      → ((r : R) → id (f r) ≡ id r)
      → (rs : List R) → HasGrowingIds id rs
      → HasGrowingIds id (update key k f rs)
  unfolding update
  HasGrowingIds-update k f keeps [] h = tt
  HasGrowingIds-update k f keeps (r ∷ rs) (first, h) =
      let later = All-update (λ n. id r < n) k f keeps rs first in
      elim (Bool-cases (e.same (key r) k)) [
        | inl here ↦ rw (here, keeps r) (later, HasGrowingIds-update k f keeps rs h)
        | inr other ↦ rw other (later, HasGrowingIds-update k f keeps rs h)
      ]

  HasGrowingIds-delete :
      (k : K) (rs : List R) → HasGrowingIds id rs → HasGrowingIds id (delete key k rs)
  unfolding delete
  HasGrowingIds-delete k [] h = tt
  HasGrowingIds-delete k (r ∷ rs) (first, h) = elim (Bool-cases (e.same (key r) k)) [
    | inl here ↦ rw here (HasGrowingIds-delete k rs h)
    | inr other ↦ rw other (All-delete (λ x. id r < id x) k rs first, HasGrowingIds-delete k rs h)
  ]

  pub update-HasRowIds :
      (k : K) (f : R → R) (n : ℕ) (t : Table R)
      → ((r : R) → id (f r) ≡ id r)
      → HasRowIds id t
      → HasRowIds id (record { rows = update key k f t.rows; seq = t.seq + n })
  update-HasRowIds k f n t keeps h = record {
    growing = HasGrowingIds-update k f keeps t.rows h.growing;
    below =
        All-update (λ m. m ≤ t.seq + n) k f keeps t.rows
          (All-weaken (λ r le. omega arith) t.rows h.below);
  }

  pub update-HasRowIds_same :
      (k : K) (f : R → R) (t : Table R)
      → ((r : R) → id (f r) ≡ id r)
      → HasRowIds id t
      → HasRowIds id (record { rows = update key k f t.rows; seq = t.seq })
  update-HasRowIds_same k f t keeps h = record {
    growing = HasGrowingIds-update k f keeps t.rows h.growing;
    below = All-update (λ m. m ≤ t.seq) k f keeps t.rows h.below;
  }

  pub delete-HasRowIds :
      (k : K) (t : Table R)
      → HasRowIds id t
      → HasRowIds id (record { rows = delete key k t.rows; seq = t.seq })
  delete-HasRowIds k t h = record {
    growing = HasGrowingIds-delete k t.rows h.growing;
    below = All-delete (λ r. id r ≤ t.seq) k t.rows h.below;
  }

  pub upsert-HasRowIds :
      (stamp : Stamp) (k : K) (mk : ℕ → R) (f : R → R) (t : Table R)
      → ((r : R) → id (f r) ≡ id r)
      → ((n : ℕ) → id (mk n) ≡ n)
      → HasRowIds id t
      → HasRowIds id (upsert key stamp k mk f t)
  unfolding upsert
  upsert-HasRowIds stamp k mk f t keeps made h = elim (Bool-cases (is_some (find key k t.rows))) [
    | inl old ↦ rw old (update-HasRowIds k f stamp.spent t keeps h)
    | inr new ↦ rw new (insert-HasRowIds id mk t made h)
  ]

module _ {R : Type 0} (id : R → ℕ) (p : R → Bool) where
  All-select : (P : R → Type 0) (rs : List R) → All P rs → All P (select p rs)
  All-select P [] h = tt
  All-select P (r ∷ rs) (q, h) = elim (Bool-cases (p r)) [
    | inl kept ↦ rw kept (q, All-select P rs h)
    | inr dropped ↦ rw dropped (All-select P rs h)
  ]

  pub HasGrowingIds-select : (rs : List R) → HasGrowingIds id rs → HasGrowingIds id (select p rs)
  HasGrowingIds-select [] h = tt
  HasGrowingIds-select (r ∷ rs) (first, h) = elim (Bool-cases (p r)) [
    | inl kept ↦ rw kept (All-select (λ x. id r < id x) rs first, HasGrowingIds-select rs h)
    | inr dropped ↦ rw dropped (HasGrowingIds-select rs h)
  ]
