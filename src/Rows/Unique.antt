-- ===== src/Rows/Unique.antt =====
-- UNIQUE columns of rust/src/state.rs: every statement keeps the keys distinct.
use megaserver.Common.{ℕ, ◌+◌, ◌≡◌, refl, none, List, [], ◌∷◌, ◌++◌, arith}
use megaserver.Rows.{Table, Stamp, KeyEq, find, update, delete, upsert}
use megaserver.Rows.Keyed.{find-append, find-update, find-delete}

module _ {R K : Type 0} ⦃e : KeyEq K⦄ (key : R → K) where
  -- No two rows have one key.
  abbrev pub HasUniqueKeys : List R → Type 0
  HasUniqueKeys [] = Unit
  HasUniqueKeys (r ∷ rs) = (find key (key r) rs ≡ none) × HasUniqueKeys rs

  pub update-HasUniqueKeys :
      (k : K) (f : R → R)
      → ((r : R) → key (f r) ≡ key r)
      → (rs : List R) → HasUniqueKeys rs
      → HasUniqueKeys (update key k f rs)
  unfolding update
  update-HasUniqueKeys k f keeps [] h = tt
  update-HasUniqueKeys k f keeps (r ∷ rs) (new, h) = (
    ground (arith, find-update key k (key r) f keeps rs, keeps r),
    update-HasUniqueKeys k f keeps rs h,
  )

  pub delete-HasUniqueKeys :
      (k : K) (rs : List R) → HasUniqueKeys rs → HasUniqueKeys (delete key k rs)
  unfolding delete
  delete-HasUniqueKeys k [] h = tt
  delete-HasUniqueKeys k (r ∷ rs) (new, h) =
      ground (arith, find-delete key k (key r) rs, delete-HasUniqueKeys k rs h)

  pub append-HasUniqueKeys :
      (rs : List R) (r : R)
      → HasUniqueKeys rs
      → find key (key r) rs ≡ none
      → HasUniqueKeys (rs ++ r ∷ [])
  unfolding find
  append-HasUniqueKeys [] r h new = (refl, tt)
  append-HasUniqueKeys (x ∷ rs) r (fresh, h) new = ground (
    arith,
    append-HasUniqueKeys rs r h,
    find-append key (key x) rs r,
    e.same_iff (key x) (key r),
    e.same_iff (key r) (key x),
  )

  pub upsert-HasUniqueKeys :
      (stamp : Stamp) (k : K) (mk : ℕ → R) (f : R → R) (t : Table R)
      → ((r : R) → key (f r) ≡ key r)
      → ((id : ℕ) → key (mk id) ≡ k)
      → HasUniqueKeys t.rows
      → HasUniqueKeys (upsert key stamp k mk f t).rows
  unfolding upsert
  upsert-HasUniqueKeys stamp k mk f t keeps made h = ground (
    arith,
    update-HasUniqueKeys k f keeps t.rows h,
    append-HasUniqueKeys t.rows (mk (t.seq + 1)) h,
    made (t.seq + 1),
  )

-- Rows deleted by one column leave another column's keys distinct.
module _ {R K L : Type 0} ⦃e : KeyEq K⦄ ⦃d : KeyEq L⦄ (key : R → K) (other : R → L) where
  find-delete_other :
      (j : K) (k : L) (rs : List R)
      → find key j rs ≡ none
      → find key j (delete ⦃e = d⦄ other k rs) ≡ none
  unfolding find delete
  find-delete_other j k [] h = refl
  find-delete_other j k (r ∷ rs) h = ground (arith, find-delete_other j k rs)

  pub delete-HasUniqueKeys_other :
      (k : L) (rs : List R) → HasUniqueKeys key rs → HasUniqueKeys key (delete ⦃e = d⦄ other k rs)
  unfolding delete
  delete-HasUniqueKeys_other k [] h = tt
  delete-HasUniqueKeys_other k (r ∷ rs) (new, h) =
      ground (arith, find-delete_other (key r) k rs, delete-HasUniqueKeys_other k rs h)
