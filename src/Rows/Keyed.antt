-- ===== src/Rows/Keyed.antt =====
-- What a row search returns after each statement of rust/src/state.rs, in `if` form.
use mathlib.Core.Option
use megaserver.Common.{ℕ, ◌+◌, ◌≡◌, refl, none, some, List, [], ◌∷◌, ◌++◌, if◌then◌else◌, arith}
use megaserver.Rows.{
  Table, Stamp, KeyEq, find, update, delete, where_key, upsert, is_some, upserted,
}

module _ {R K : Type 0} ⦃e : KeyEq K⦄ (key : R → K) where
  pub find-append :
      (j : K) (rs : List R) (r : R)
      → find key j (rs ++ r ∷ []) ≡ (
          if is_some (find key j rs)
          then find key j rs
          else if e.same (key r) j
          then some r
          else none)
  unfolding find
  find-append j [] r = refl
  find-append j (x ∷ rs) r = ground (arith, find-append j rs r)

  pub find-update :
      (k j : K) (f : R → R)
      → ((r : R) → key (f r) ≡ key r)
      → (rs : List R)
      → find key j (update key k f rs)
        ≡ (if e.same k j then Option.map f (find key j rs) else find key j rs)
  unfolding find update
  find-update k j f keeps [] = ground arith
  find-update k j f keeps (r ∷ rs) = ground (
    arith,
    find-update k j f keeps rs,
    keeps r,
    e.same_iff (key r) k,
    e.same_iff (key r) j,
    e.same_iff k j,
  )

  pub find-delete :
      (k j : K) (rs : List R)
      → find key j (delete key k rs) ≡ (if e.same k j then none else find key j rs)
  unfolding find delete
  find-delete k j [] = ground arith
  find-delete k j (r ∷ rs) =
      ground (arith, find-delete k j rs, e.same_iff (key r) k, e.same_iff (key r) j, e.same_iff k j)

  -- The row found has the key that was asked for.
  pub key-find : (k : K) (rs : List R) (r : R) → find key k rs ≡ some r → key r ≡ k
  unfolding find
  key-find k [] r h = ground arith
  key-find k (x ∷ rs) r h = ground (arith, key-find k rs r, e.same_iff (key x) k)

  pub where_key-delete :
      (k j : K) (rs : List R)
      → where_key key j (delete key k rs) ≡ (if e.same k j then [] else where_key key j rs)
  unfolding where_key delete
  where_key-delete k j [] = ground arith
  where_key-delete k j (r ∷ rs) =
      ground
        (arith, where_key-delete k j rs, e.same_iff (key r) k, e.same_iff (key r) j, e.same_iff k j)

  pub where_key-append :
      (j : K) (rs : List R) (r : R)
      → where_key key j (rs ++ r ∷ [])
        ≡ (if e.same (key r) j then where_key key j rs ++ r ∷ [] else where_key key j rs)
  unfolding where_key
  where_key-append j [] r = ground arith
  where_key-append j (x ∷ rs) r = ground (arith, where_key-append j rs r)

  pub find-upsert :
      (stamp : Stamp) (k j : K) (mk : ℕ → R) (f : R → R) (t : Table R)
      → ((r : R) → key (f r) ≡ key r)
      → ((id : ℕ) → key (mk id) ≡ k)
      → find key j (upsert key stamp k mk f t).rows ≡ (
          if e.same k j
          then some (upserted (find key k t.rows) (mk (t.seq + 1)) f)
          else find key j t.rows)
  unfolding upsert
  find-upsert stamp k j mk f t keeps made = ground (
    arith,
    find-update k j f keeps t.rows,
    find-append j t.rows (mk (t.seq + 1)),
    made (t.seq + 1),
    e.same_iff k j,
    e.same_iff (key (mk (t.seq + 1))) j,
  )
