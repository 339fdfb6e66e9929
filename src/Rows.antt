-- ===== src/Rows.antt =====
-- The SQL statements of rust/src/state.rs, over lists of rows: the meaning that the statements
-- share. Each table of the database is a `Table` of one record type of rust/src/model.rs.
pub mod Keyed
pub mod Unique
pub mod Order
pub mod Ids
use megaserver.Common.{
  ℕ, ◌+◌, String, ◌≡◌, ◌↔◌, Bool, true, false, ◌&&◌, Option, none, some, List, [], ◌∷◌, ◌++◌, ◌==◌,
  if◌then◌else◌, eq_iff, arith,
}

-- A table: its rows in the order of their row ids, and the last row id that AUTOINCREMENT gave.
pub record Table (R : Type 0) : Type 0 where
  pub rows : List R
  pub seq : ℕ

-- What comes from outside with a statement that writes: the text of the clock, and how many row ids
-- the engine uses up when ON CONFLICT turns an insert into an update.
pub record Stamp : Type 0 where
  pub now : String
  pub spent : ℕ

-- The equality of a UNIQUE column, or of several.
pub record KeyEq (K : Type 0) : Type 0 where
  pub same : K → K → Bool
  pub same_iff : (a b : K) → (same a b ≡ true) ↔ (a ≡ b)

instance abbrev pub text_key : KeyEq String
text_key = record { same = ◌==◌; same_iff = eq_iff }

abbrev pub pair_same : String × String → String × String → Bool
pair_same (a, b) (c, d) = a == c && b == d

pub pair_same_iff : (p q : String × String) → (pair_same p q ≡ true) ↔ (p ≡ q)
pair_same_iff (a, b) (c, d) = ground (arith, eq_iff a c, eq_iff b d)

instance abbrev pub pair_key : KeyEq (String × String)
pair_key = record { same = pair_same; same_iff = pair_same_iff }

module _ {R : Type 0} where
  abbrev pub is_some : Option R → Bool
  is_some none = false
  is_some (some r) = true

  abbrev pub empty_table : Table R
  empty_table = record { rows = []; seq = 0 }

  -- The row that an upsert leaves: the old row updated, or else the new one.
  abbrev pub upserted : Option R → R → (R → R) → R
  upserted none new f = new
  upserted (some r) new f = f r

  -- INSERT INTO t(...) VALUES (...): the row gets the next row id.
  abbrev pub insert : (ℕ → R) → Table R → Table R
  insert mk t = record { rows = t.rows ++ mk (t.seq + 1) ∷ []; seq = t.seq + 1 }

module _ {R K : Type 0} ⦃e : KeyEq K⦄ (key : R → K) where
  -- SELECT ... WHERE key = k, for at most one row (`query_row(...).optional()`).
  unfoldable pub find : K → List R → Option R
  find k [] = none
  find k (r ∷ rs) = if e.same (key r) k then some r else find k rs

  -- UPDATE t SET ... WHERE key = k.
  unfoldable pub update : K → (R → R) → List R → List R
  update k f [] = []
  update k f (r ∷ rs) = (if e.same (key r) k then f r else r) ∷ update k f rs

  -- DELETE FROM t WHERE key = k.
  unfoldable pub delete : K → List R → List R
  delete k [] = []
  delete k (r ∷ rs) = let rest = delete k rs in if e.same (key r) k then rest else r ∷ rest

  -- SELECT ... WHERE key = k, for every such row.
  unfoldable pub where_key : K → List R → List R
  where_key k [] = []
  where_key k (r ∷ rs) = let rest = where_key k rs in if e.same (key r) k then r ∷ rest else rest

  -- INSERT ... ON CONFLICT(key) DO UPDATE SET ...: `mk` makes the new row, `f` updates the old one.
  unfoldable pub upsert : Stamp → K → (ℕ → R) → (R → R) → Table R → Table R
  unfolding find update
  upsert stamp k mk f t =
      if is_some (find k t.rows)
      then record { rows = update k f t.rows; seq = t.seq + stamp.spent }
      else insert mk t
