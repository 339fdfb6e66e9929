-- ===== src/Exec/Endings.antt =====
-- How an action ends: a postcondition for the value it returns and one for the error it fails with.
use megaserver.Common.{◌≡◌, refl}
use megaserver.Result.{Result, ok, err}
use megaserver.State.{Db}
use megaserver.Exec.{AppError, Sys, M, pure, raise, ◌>>=◌, call, read, write, lift, attempt}
use megaserver.Exec.Rules.{Keeps}
use megaserver.Exec.Outcomes.{Gives, Gives-Keeps, OnReturn}

abbrev pub OnEnd :
    {W A : Type 0}
    → (A → Db → Type 0)
    → (AppError → Db → Type 0)
    → Result AppError A × Sys W
    → Type 0
OnEnd Q E (ok a, s) = Q a s.db
OnEnd Q E (err e, s) = E e s.db

pub record Ends {W A : Type 0} (P : Db → Type 0) (m : M W A) (Q : A → Db → Type 0)
    (E : AppError → Db → Type 0) : Type 0 where
  pub at : (s : Sys W) → P s.db → OnEnd Q E (m s)

-- What holds of the outcome of an action whose error is a value.
abbrev pub OnOutcome :
    {A : Type 0} → (A → Db → Type 0) → (AppError → Db → Type 0) → Result AppError A → Db → Type 0
OnOutcome Q E (ok a) db = Q a db
OnOutcome Q E (err e) db = E e db

module _ {W A : Type 0} (Q : A → Db → Type 0) (E : AppError → Db → Type 0) where
  OnEnd-kept :
      (P : Db → Type 0) (r : Result AppError A) (s : Sys W)
      → OnReturn Q (r, s)
      → P s.db
      → ((e : AppError) → P s.db → E e s.db)
      → OnEnd Q E (r, s)
  OnEnd-kept P (ok a) s h p f = h
  OnEnd-kept P (err e) s h p f = f e p

  OnEnd-attempt : (r : Result AppError A) (s : Sys W) → OnEnd Q E (r, s) → OnOutcome Q E r s.db
  OnEnd-attempt (ok a) s h = h
  OnEnd-attempt (err e) s h = h

  OnEnd-return : (r : Result AppError A) (s : Sys W) → OnEnd Q E (r, s) → OnReturn Q (r, s)
  OnEnd-return (ok a) s h = h
  OnEnd-return (err e) s h = tt

  OnEnd-weaken :
      (R : A → Db → Type 0)
      → ((a : A) (db : Db) → Q a db → R a db)
      → (r : Result AppError A) (s : Sys W) → OnEnd Q E (r, s)
      → OnEnd R E (r, s)
  OnEnd-weaken R f (ok a) s h = f a s.db h
  OnEnd-weaken R f (err e) s h = h

  OnEnd-attempted :
      (r : Result AppError A) (s : Sys W) → OnReturn Q (r, s) → OnOutcome Q (λ e db. Unit) r s.db
  OnEnd-attempted (ok a) s h = h
  OnEnd-attempted (err e) s h = tt

module _ {W A : Type 0} {P : Db → Type 0} {E : AppError → Db → Type 0} where
  -- What an action gives, and what it keeps where it fails.
  pub Ends-Gives :
      {Q : A → Db → Type 0} (m : M W A)
      → Gives P m Q
      → Keeps P m
      → ((e : AppError) (db : Db) → P db → E e db)
      → Ends P m Q E
  Ends-Gives {Q} m g k f = record {
    at = λ s h.
        let (r, s') = m s in OnEnd-kept Q E P r s' (g.at s h) (k.at s h) (λ e p. f e s'.db p);
  }

  -- The same for one that keeps everything.
  pub Ends-kept :
      (m : M W A)
      → ((S : Db → Type 0) → Keeps S m)
      → ((e : AppError) (db : Db) → P db → E e db)
      → Ends P m (λ a. P) E
  Ends-kept m k f = Ends-Gives m (Gives-Keeps m (k P)) (k P) f

  -- A fact about values alone.
  pub Ends-pull :
      {X : Type 0} {Q : A → Db → Type 0} (m : M W A)
      → (X → Ends P m Q E)
      → Ends (λ db. P db × X) m Q E
  Ends-pull m g = record { at = λ s h. (g h.1).at s h.0 }

  pub Ends-pure :
      {Q : A → Db → Type 0} (a : A) → ((db : Db) → P db → Q a db) → Ends P (pure {W = W} a) Q E
  unfolding pure
  Ends-pure a k = record { at = λ s h. k s.db h }

  pub Ends-raise :
      (Q : A → Db → Type 0) (e : AppError)
      → ((db : Db) → P db → E e db)
      → Ends P (raise {W = W} e) Q E
  unfolding raise
  Ends-raise Q e k = record { at = λ s h. k s.db h }

  -- An action that never fails, and keeps the precondition.
  pub Ends-call : (f : W → A × W) → Ends P (call f) (λ a. P) E
  unfolding call
  Ends-call f = record { at = λ s h. h }

  -- With the world in which the call gave its answer.
  pub Ends-answer : (f : W → A × W) → Ends P (call f) (λ a db. P db × ((w : W) × ((f w).0 ≡ a))) E
  unfolding call
  Ends-answer f = record { at = λ s h. (h, (s.world, refl)) }

  pub Ends-read : (f : Db → A) → Ends P (read {W = W} f) (λ a db. P db × (f db ≡ a)) E
  unfolding read
  Ends-read f = record { at = λ s h. (h, refl) }

  pub Ends-lift_ok :
      {Q : A → Db → Type 0} (a : A) → ((db : Db) → P db → Q a db) → Ends P (lift {W = W} (ok a)) Q E
  unfolding lift
  Ends-lift_ok a k = record { at = λ s h. k s.db h }

  pub Ends-lift_err :
      {Q : A → Db → Type 0} (e : AppError)
      → ((db : Db) → P db → E e db)
      → Ends P (lift {W = W} {A = A} (err e)) Q E
  unfolding lift
  Ends-lift_err e k = record { at = λ s h. k s.db h }

  pub Ends-weaken :
      {Q R : A → Db → Type 0} (m : M W A)
      → ((a : A) (db : Db) → Q a db → R a db)
      → Ends P m Q E
      → Ends P m R E
  Ends-weaken {Q} {R} m f g = record {
    at = λ s h. let (r, s') = m s in OnEnd-weaken Q E R f r s' (g.at s h);
  }

  pub Ends-before :
      {S : Db → Type 0} {Q : A → Db → Type 0} (m : M W A)
      → ((db : Db) → S db → P db)
      → Ends P m Q E
      → Ends S m Q E
  Ends-before m f g = record { at = λ s h. g.at s (f s.db h) }

  pub Gives-Ends : {Q : A → Db → Type 0} (m : M W A) → Ends P m Q E → Gives P m Q
  Gives-Ends {Q} m g = record { at = λ s h. let (r, s') = m s in OnEnd-return Q E r s' (g.at s h) }

  -- An action whose error is a value does not fail.
  pub Ends-attempt :
      {Q : A → Db → Type 0} {F : AppError → Db → Type 0} (m : M W A)
      → Ends P m Q F
      → Ends P (attempt m) (OnOutcome Q F) E
  unfolding attempt
  Ends-attempt {Q} {F} m g = record {
    at = λ s h. let (r, s') = m s in OnEnd-attempt Q F r s' (g.at s h);
  }

  pub Ends-attempted :
      {Q : A → Db → Type 0} (m : M W A)
      → Gives P m Q
      → Ends P (attempt m) (OnOutcome Q (λ e db. Unit)) E
  unfolding attempt
  Ends-attempted {Q} m g = record {
    at = λ s h. let (r, s') = m s in OnEnd-attempted Q E r s' (g.at s h);
  }

  pub Ends-attempt_any : (m : M W A) → Ends P (attempt m) (λ r db. Unit) E
  unfolding attempt
  Ends-attempt_any m = record { at = λ s h. tt }

module _ {W : Type 0} {P : Db → Type 0} {E : AppError → Db → Type 0} where
  pub Ends-write :
      {Q : Unit {0} → Db → Type 0} (f : Db → Db)
      → ((db : Db) → P db → Q tt (f db))
      → Ends P (write {W = W} f) Q E
  unfolding write
  Ends-write f k = record { at = λ s h. k s.db h }

module _ {W A B : Type 0} {Q : A → Db → Type 0} {R : B → Db → Type 0}
    {E : AppError → Db → Type 0} where
  OnEnd-continue :
      (r : Result AppError A) (f : A → M W B)
      → ((a : A) → Ends (Q a) (f a) R E)
      → (s : Sys W) → OnEnd Q E (r, s)
      → OnEnd R E (megaserver.Exec.continue r f s)
  OnEnd-continue (ok a) f k s h = (k a).at s h
  OnEnd-continue (err e) f k s h = h

  pub Ends-bind :
      {P : Db → Type 0} (m : M W A) (f : A → M W B)
      → Ends P m Q E
      → ((a : A) → Ends (Q a) (f a) R E)
      → Ends P (m >>= f) R E
  unfolding ◌>>=◌
  Ends-bind m f gm gf = record {
    at = λ s h. let (r, s') = m s in OnEnd-continue r f gf s' (gm.at s h);
  }
