-- ===== src/Rows/Order.antt =====
-- ORDER BY in rust/src/state.rs, as insertion sort, and the growth of row ids.
use Prim.Native.String.{compare}
use text.Mathlib.Text.{is_le}
use mathlib.Core.List.{Perm, reverse-cons}
use mathlib.Core.List.Perm
use megaserver.Common.{
  ℕ, ◌+◌, ◌≤◌, ◌<◌, String, ◌≡◌, refl, ap, ◌∙◌, sym, Bool, List, [], ◌∷◌, ◌++◌, if◌then◌else◌, ltb,
  arith, All, All-append, All-weaken, reverse, Bool-cases, inl, inr,
}
use megaserver.Rows.{Table, insert}

module _ {R : Type 0} (before : R → R → Bool) where
  insert_sorted : R → List R → List R
  insert_sorted r [] = r ∷ []
  insert_sorted r (x ∷ xs) =
      let later = insert_sorted r xs in if before r x then r ∷ x ∷ xs else x ∷ later

  unfoldable pub order_by : List R → List R
  unfolding insert_sorted
  order_by [] = []
  order_by (r ∷ rs) = insert_sorted r (order_by rs)

  insert_sorted-perm : (r : R) (xs : List R) → Perm (insert_sorted r xs) (r ∷ xs)
  unfolding insert_sorted
  insert_sorted-perm r [] = Perm.refl (r ∷ [])
  insert_sorted-perm r (x ∷ xs) = elim (Bool-cases (before r x)) [
    | inl first ↦ rw first (Perm.refl (r ∷ x ∷ xs))
    | inr later ↦ rw later (Perm.trans (Perm.cons x (insert_sorted-perm r xs)) (Perm.swap r x xs))
  ]

  -- ORDER BY returns every row once.
  pub order_by-perm : (rs : List R) → Perm (order_by rs) rs
  unfolding order_by
  order_by-perm [] = Perm.refl []
  order_by-perm (r ∷ rs) =
      Perm.trans (insert_sorted-perm r (order_by rs)) (Perm.cons r (order_by-perm rs))

  insert_sorted-All :
      (P : R → Type 0) (r : R) (xs : List R) → P r → All P xs → All P (insert_sorted r xs)
  unfolding insert_sorted
  insert_sorted-All P r [] p h = (p, tt)
  insert_sorted-All P r (x ∷ xs) p (q, h) = elim (Bool-cases (before r x)) [
    | inl first ↦ rw first (p, (q, h))
    | inr later ↦ rw later (q, insert_sorted-All P r xs p h)
  ]

  pub order_by-All : (P : R → Type 0) (rs : List R) → All P rs → All P (order_by rs)
  unfolding order_by
  order_by-All P [] h = tt
  order_by-All P (r ∷ rs) (p, h) = insert_sorted-All P r (order_by rs) p (order_by-All P rs h)

  All-insert_sorted :
      (P : R → Type 0) (r : R) (xs : List R) → All P (insert_sorted r xs) → P r × All P xs
  unfolding insert_sorted
  All-insert_sorted P r [] h = h
  All-insert_sorted P r (x ∷ xs) h = elim (Bool-cases (before r x)) [
    | inl first ↦ rw first at h
    | inr later ↦
        let (q, k) : P x × All P (insert_sorted r xs) = rw later at h in
        let (p, rest) = All-insert_sorted P r xs k in (p, (q, rest))
  ]

  -- What holds of every row listed holds of every row.
  pub All-order_by : (P : R → Type 0) (rs : List R) → All P (order_by rs) → All P rs
  unfolding order_by
  All-order_by P [] h = tt
  All-order_by P (r ∷ rs) h =
      let (p, k) = All-insert_sorted P r (order_by rs) h in (p, All-order_by P rs k)

-- The default collation compares the bytes of the texts. Rows with equal keys stay in their order.
abbrev pub text_before : {R : Type 0} → (R → String) → R → R → Bool
text_before key a b = is_le (compare (key a) (key b))

-- Row ids grow in the order of insertion and stay at or below the table's counter.
module _ {R : Type 0} (id : R → ℕ) where
  abbrev pub HasGrowingIds : List R → Type 0
  HasGrowingIds [] = Unit
  HasGrowingIds (r ∷ rs) = All (λ x. id r < id x) rs × HasGrowingIds rs

  pub record HasRowIds (t : Table R) : Type 0 where
    pub growing : HasGrowingIds t.rows
    pub below : All (λ r. id r ≤ t.seq) t.rows

  HasGrowingIds-append :
      (n : ℕ) (rs : List R) (r : R)
      → HasGrowingIds rs
      → All (λ x. id x ≤ n) rs
      → n < id r
      → HasGrowingIds (rs ++ r ∷ [])
  HasGrowingIds-append n [] r h b lt = (tt, tt)
  HasGrowingIds-append n (x ∷ rs) r (first, h) (le, b) lt = (
    All-append (λ y. id x < id y) rs (r ∷ []) first (omega arith, tt),
    HasGrowingIds-append n rs r h b lt,
  )

  pub insert-HasRowIds :
      (mk : ℕ → R) (t : Table R) → ((n : ℕ) → id (mk n) ≡ n) → HasRowIds t → HasRowIds (insert mk t)
  insert-HasRowIds mk t made h = record {
    growing =
        HasGrowingIds-append t.seq t.rows (mk (t.seq + 1)) h.growing h.below
          (omega (arith, made (t.seq + 1)));
    below =
        All-append (λ r. id r ≤ t.seq + 1) t.rows (mk (t.seq + 1) ∷ [])
          (All-weaken (λ r le. omega arith) t.rows h.below) (omega (arith, made (t.seq + 1)), tt);
  }

  -- ORDER BY id DESC
  abbrev pub newest_first : R → R → Bool
  newest_first a b = ltb (id b) (id a)

  insert_sorted-last :
      (r : R) (xs : List R)
      → All (λ x. id r < id x) xs
      → insert_sorted newest_first r xs ≡ xs ++ r ∷ []
  unfolding insert_sorted
  insert_sorted-last r [] h = refl
  insert_sorted-last r (x ∷ xs) (lt, h) = ground (arith, insert_sorted-last r xs h)

  All-reverse : (P : R → Type 0) (rs : List R) → All P rs → All P (reverse rs)
  All-reverse P [] h = tt
  All-reverse P (r ∷ rs) (p, h) =
      rw reverse-cons (All-append P (reverse rs) (r ∷ []) (All-reverse P rs h) (p, tt))

  -- Rows whose ids grow come out in reverse.
  pub order_by-newest_first :
      (rs : List R) → HasGrowingIds rs → order_by newest_first rs ≡ reverse rs
  unfolding order_by
  order_by-newest_first [] h = refl
  order_by-newest_first (r ∷ rs) (first, h) =
      ap (insert_sorted newest_first r) (order_by-newest_first rs h)
      ∙ insert_sorted-last r (reverse rs) (All-reverse (λ x. id r < id x) rs first)
      ∙ sym (reverse-cons r rs)
