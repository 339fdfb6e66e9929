-- ===== src/Exec/Outcomes.antt =====
-- What holds when an action returns: a precondition on the database and a postcondition on the value and
-- the database.
use megaserver.Common.{◌≡◌, refl, Bool, true, false, if◌then◌else◌}
use megaserver.Result.{Result, ok, err}
use megaserver.State.{Db}
use megaserver.Exec.{AppError, Sys, M, pure, raise, ◌>>=◌, read, write, call, lift, attempt}
use megaserver.Exec.Rules.{Keeps}

abbrev pub OnReturn : {W A : Type 0} → (A → Db → Type 0) → Result AppError A × Sys W → Type 0
OnReturn Q (ok a, s) = Q a s.db
OnReturn Q (err e, s) = Unit

module _ {W A : Type 0} where
  OnReturn-keeps :
      (P : Db → Type 0) (r : Result AppError A) (s : Sys W) → P s.db → OnReturn (λ _. P) (r, s)
  OnReturn-keeps P (ok a) s h = h
  OnReturn-keeps P (err e) s h = tt

  OnReturn-lift :
      (P : Db → Type 0) (r : Result AppError A) (s : Sys W)
      → P s.db
      → OnReturn (λ a db. P db × (r ≡ ok a)) (r, s)
  OnReturn-lift P (ok a) s h = (h, refl)
  OnReturn-lift P (err e) s h = tt

  OnReturn-weaken :
      {Q R : A → Db → Type 0}
      → ((a : A) (db : Db) → Q a db → R a db)
      → (r : Result AppError A) (s : Sys W) → OnReturn Q (r, s)
      → OnReturn R (r, s)
  OnReturn-weaken f (ok a) s h = f a s.db h
  OnReturn-weaken f (err e) s h = tt

module _ {W A : Type 0} (Q R : A → Db → Type 0) where
  OnReturn-and :
      (r : Result AppError A) (s : Sys W)
      → OnReturn Q (r, s)
      → OnReturn R (r, s)
      → OnReturn (λ a db. Q a db × R a db) (r, s)
  OnReturn-and (ok a) s g k = (g, k)
  OnReturn-and (err e) s g k = tt

pub record Gives {W A : Type 0} (P : Db → Type 0) (m : M W A) (Q : A → Db → Type 0) : Type 0 where
  pub at : (s : Sys W) → P s.db → OnReturn Q (m s)

module _ {W A : Type 0} {P : Db → Type 0} where
  pub Gives-pure :
      {Q : A → Db → Type 0} (a : A) → ((db : Db) → P db → Q a db) → Gives P (pure {W = W} a) Q
  unfolding pure
  Gives-pure a k = record { at = λ s h. k s.db h }

  pub Gives-raise : (Q : A → Db → Type 0) (e : AppError) → Gives P (raise {W = W} e) Q
  unfolding raise
  Gives-raise Q e = record { at = λ s h. tt }

  pub Gives-read : (f : Db → A) → Gives P (read {W = W} f) (λ a db. P db × (f db ≡ a))
  unfolding read
  Gives-read f = record { at = λ s h. (h, refl) }

  -- An action that keeps a property gives it.
  pub Gives-Keeps : (m : M W A) → Keeps P m → Gives P m (λ _. P)
  Gives-Keeps m k = record { at = λ s h. let (r, s') = m s in OnReturn-keeps P r s' (k.at s h) }

  pub Gives-lift : (r : Result AppError A) → Gives P (lift {W = W} r) (λ a db. P db × (r ≡ ok a))
  unfolding lift
  Gives-lift r = record { at = λ s h. OnReturn-lift P r s h }

  pub Gives-weaken :
      {Q R : A → Db → Type 0} (m : M W A)
      → ((a : A) (db : Db) → Q a db → R a db)
      → Gives P m Q
      → Gives P m R
  Gives-weaken {Q} {R} m f g = record {
    at = λ s h. let (r, s') = m s in OnReturn-weaken {Q = Q} {R = R} f r s' (g.at s h);
  }

  pub Gives-before :
      {S : Db → Type 0} {Q : A → Db → Type 0} (m : M W A)
      → ((db : Db) → S db → P db)
      → Gives P m Q
      → Gives S m Q
  Gives-before m f g = record { at = λ s h. g.at s (f s.db h) }

  -- A fact about values alone goes to the postcondition.
  pub Gives-pull :
      {X : Type 0} {Q : A → Db → Type 0} (m : M W A)
      → (X → Gives P m Q)
      → Gives (λ db. P db × X) m Q
  Gives-pull m g = record { at = λ s h. (g h.1).at s h.0 }

  -- Two conclusions at once.
  pub Gives-and :
      {Q R : A → Db → Type 0} (m : M W A)
      → Gives P m Q
      → Gives P m R
      → Gives P m (λ a db. Q a db × R a db)
  Gives-and {Q} {R} m g k = record {
    at = λ s h. let (r, s') = m s in OnReturn-and Q R r s' (g.at s h) (k.at s h);
  }

  pub Gives-if :
      {Q : A → Db → Type 0} (b : Bool) (m n : M W A)
      → (b ≡ true → Gives P m Q)
      → (b ≡ false → Gives P n Q)
      → Gives P (if b then m else n) Q
  Gives-if true m n gm gn = gm refl
  Gives-if false m n gm gn = gn refl

module _ {W : Type 0} {P : Db → Type 0} where
  pub Gives-write :
      {Q : Unit {0} → Db → Type 0} (f : Db → Db)
      → ((db : Db) → P db → Q tt (f db))
      → Gives P (write {W = W} f) Q
  unfolding write
  Gives-write f k = record { at = λ s h. k s.db h }

module _ {W A B : Type 0} {Q : A → Db → Type 0} {R : B → Db → Type 0} where
  OnReturn-continue :
      (r : Result AppError A) (f : A → M W B)
      → ((a : A) → Gives (Q a) (f a) R)
      → (s : Sys W) → OnReturn Q (r, s)
      → OnReturn R (megaserver.Exec.continue r f s)
  OnReturn-continue (ok a) f k s h = (k a).at s h
  OnReturn-continue (err e) f k s h = tt

module _ {W A B : Type 0} {P : Db → Type 0} {Q : A → Db → Type 0} {R : B → Db → Type 0} where
  pub Gives-bind :
      (m : M W A) (f : A → M W B)
      → Gives P m Q
      → ((a : A) → Gives (Q a) (f a) R)
      → Gives P (m >>= f) R
  unfolding ◌>>=◌
  Gives-bind m f gm gf = record {
    at = λ s h. let (r, s') = m s in OnReturn-continue r f gf s' (gm.at s h);
  }
