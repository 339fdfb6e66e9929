-- ===== src/Exec/Rules.antt =====
-- Properties of the database that an action keeps, whether it returns or fails.
use megaserver.Common.{◌≡◌, Bool, true, false, Option, some, if◌then◌else◌, Option-cases, inl, inr}
use megaserver.Result.{Result, ok, err}
use megaserver.State.{Db}
use megaserver.Exec.{
  AppError, Sys, M, pure, raise, ◌>>=◌, read, write, try_write, call, lift, attempt,
}

pub record Keeps {W A : Type 0} (P : Db → Type 0) (m : M W A) : Type 0 where
  pub at : (s : Sys W) → P s.db → P (m s).1.db

module _ {W A : Type 0} {P : Db → Type 0} where
  pub Keeps-pure : (a : A) → Keeps P (pure {W = W} a)
  unfolding pure
  Keeps-pure a = record { at = λ s h. h }

  pub Keeps-raise : (e : AppError) → Keeps P (raise {W = W} {A = A} e)
  unfolding raise
  Keeps-raise e = record { at = λ s h. h }

  pub Keeps-read : (f : Db → A) → Keeps P (read {W = W} f)
  unfolding read
  Keeps-read f = record { at = λ s h. h }

  pub Keeps-call : (f : W → A × W) → Keeps P (call f)
  unfolding call
  Keeps-call f = record { at = λ s h. h }

  pub Keeps-lift : (r : Result AppError A) → Keeps P (lift {W = W} r)
  unfolding lift
  Keeps-lift r = record { at = λ s h. h }

  pub Keeps-attempt : (m : M W A) → Keeps P m → Keeps P (attempt m)
  unfolding attempt
  Keeps-attempt m k = record { at = λ s h. k.at s h }

  pub Keeps-if : (b : Bool) (m n : M W A) → Keeps P m → Keeps P n → Keeps P (if b then m else n)
  Keeps-if true m n km kn = km
  Keeps-if false m n km kn = kn

  pub Keeps-elim :
      (b : Bool) (m n : M W A)
      → Keeps P m
      → Keeps P n
      → Keeps P (elim b as (λ _. M W A) [ true ↦ m | false ↦ n ])
  Keeps-elim true m n km kn = km
  Keeps-elim false m n km kn = kn

module _ {W : Type 0} {P : Db → Type 0} where
  pub Keeps-write : (f : Db → Db) → ((db : Db) → P db → P (f db)) → Keeps P (write {W = W} f)
  unfolding write
  Keeps-write f k = record { at = λ s h. k s.db h }

  pub Keeps-try_write :
      (f : Db → Option Db) (e : AppError)
      → ((db out : Db) → f db ≡ some out → P db → P out)
      → Keeps P (try_write {W = W} f e)
  unfolding try_write
  Keeps-try_write f e k = record {
    at = λ s h. elim (Option-cases (f s.db)) [
      | inl refused ↦ rw (refused, try_write) h
      | inr (out, ran) ↦ rw (ran, try_write) (k s.db out ran h)
    ];
  }

-- What runs after the first action only runs if that one returned; an error has kept the property already.
module _ {W A B : Type 0} {P : Db → Type 0} (rest : A → M W B)
    (keeps_rest : (a : A) → Keeps P (rest a)) where
  Keeps-continue :
      (outcome : Result AppError A) (after : Sys W)
      → P after.db
      → P (megaserver.Exec.continue outcome rest after).1.db
  Keeps-continue (err e) after kept = kept
  Keeps-continue (ok a) after kept = (keeps_rest a).at after kept

module _ {W A B : Type 0} {P : Db → Type 0} where
  pub Keeps-bind :
      (first : M W A) (rest : A → M W B)
      → Keeps P first
      → ((a : A) → Keeps P (rest a))
      → Keeps P (first >>= rest)
  unfolding ◌>>=◌
  Keeps-bind first rest keeps_first keeps_rest = record {
    at = λ before kept.
        let (outcome, after) = first before in
        Keeps-continue {P = P} rest keeps_rest outcome after (keeps_first.at before kept);
  }

pub ruleset keeps_rules = (
  Keeps-pure, Keeps-raise, Keeps-read, Keeps-call, Keeps-lift, Keeps-attempt, Keeps-if, Keeps-bind,
)
