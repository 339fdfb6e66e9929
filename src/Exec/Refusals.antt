-- ===== src/Exec/Refusals.antt =====
-- Actions that fail before they write.
use mathlib.Core.Path.{subst}
use megaserver.Common.{◌≡◌, refl}
use megaserver.Result.{Result, ok, err}
use megaserver.State.{Db}
use megaserver.Exec.{AppError, Sys, M, pure, raise, ◌>>=◌, lift}
use megaserver.Exec.Rules.{Keeps}
use megaserver.Exec.Outcomes.{Gives, Gives-Keeps, OnReturn}

-- An error, with the database as it was.
abbrev pub IsRefusal : {W A : Type 0} → Db → Result AppError A × Sys W → Type 0
IsRefusal db (ok a, s) = ⊥
IsRefusal db (err e, s) = s.db ≡ db

-- Where the precondition holds, the action fails and leaves the database alone.
pub record Refuses {W A : Type 0} (P : Db → Type 0) (m : M W A) : Type 0 where
  pub at : (s : Sys W) → P s.db → IsRefusal s.db (m s)

module _ {W A : Type 0} where
  IsRefusal-of :
      (db : Db) (r : Result AppError A) (s : Sys W)
      → OnReturn (λ _ _. ⊥) (r, s)
      → s.db ≡ db
      → IsRefusal db (r, s)
  IsRefusal-of db (ok a) s h e = h
  IsRefusal-of db (err x) s h e = e

module _ {W A : Type 0} {P : Db → Type 0} where
  pub Refuses-impossible : (m : M W A) → ((db : Db) → ¬ P db) → Refuses P m
  Refuses-impossible m k = record { at = λ s h. absurd (k s.db h) }

  pub Refuses-weaken :
      {Q : Db → Type 0} (m : M W A) → ((db : Db) → Q db → P db) → Refuses P m → Refuses Q m
  Refuses-weaken m f k = record { at = λ s h. k.at s (f s.db h) }

  pub Refuses-lift : (e : AppError) → Refuses P (lift {W = W} {A = A} (err e))
  unfolding lift
  Refuses-lift e = record { at = λ s h. refl }

  pub Refuses-raise : (e : AppError) → Refuses P (raise {W = W} {A = A} e)
  unfolding raise
  Refuses-raise e = record { at = λ s h. refl }

  -- An action that keeps everything and never returns.
  pub Refuses-Gives :
      (m : M W A) → ((Q : Db → Type 0) → Keeps Q m) → Gives P m (λ _ _. ⊥) → Refuses P m
  Refuses-Gives m keeps g = record {
    at = λ s h.
        let (r, s') = m s in
        IsRefusal-of s.db r s' (g.at s h) ((keeps (λ db. db ≡ s.db)).at s refl);
  }

module _ {W A B : Type 0} where
  IsRefusal-continue :
      (db : Db) (r : Result AppError A) (s : Sys W) (f : A → M W B)
      → IsRefusal db (r, s)
      → IsRefusal db (megaserver.Exec.continue r f s)
  IsRefusal-continue db (ok a) s f h = absurd h
  IsRefusal-continue db (err e) s f h = h

  IsRefusal-after :
      {Q : A → Db → Type 0} (db : Db) (r : Result AppError A) (s : Sys W) (f : A → M W B)
      → s.db ≡ db
      → OnReturn Q (r, s)
      → ((a : A) → Refuses (Q a) (f a))
      → IsRefusal db (megaserver.Exec.continue r f s)
  IsRefusal-after db (ok a) s f e h k = subst (λ d. IsRefusal d (f a s)) e ((k a).at s h)
  IsRefusal-after db (err x) s f e h k = e

module _ {W A B : Type 0} {P : Db → Type 0} where
  pub Refuses-bind : (m : M W A) (f : A → M W B) → Refuses P m → Refuses P (m >>= f)
  unfolding ◌>>=◌
  Refuses-bind m f k = record {
    at = λ s h. let (r, s') = m s in IsRefusal-continue s.db r s' f (k.at s h);
  }

  -- An action that keeps everything, and then one that refuses.
  pub Refuses-bind_after :
      {Q : A → Db → Type 0} (m : M W A) (f : A → M W B)
      → ((S : Db → Type 0) → Keeps S m)
      → Gives P m Q
      → ((a : A) → Refuses (Q a) (f a))
      → Refuses P (m >>= f)
  unfolding ◌>>=◌
  Refuses-bind_after {Q} m f keeps g k = record {
    at = λ s h.
        let (r, s') = m s in
        IsRefusal-after {Q = Q} s.db r s' f ((keeps (λ db. db ≡ s.db)).at s refl) (g.at s h) k;
  }

  pub Refuses-bind_kept :
      (m : M W A) (f : A → M W B)
      → ((S : Db → Type 0) → Keeps S m)
      → ((a : A) → Refuses P (f a))
      → Refuses P (m >>= f)
  Refuses-bind_kept m f keeps k = Refuses-bind_after m f keeps (Gives-Keeps m (keeps P)) k
