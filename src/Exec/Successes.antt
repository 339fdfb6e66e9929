-- ===== src/Exec/Successes.antt =====
-- Actions that return, where a precondition holds, or fail with an error of those calls that other code of the program
-- answers.
use mathlib.Core.Path.{subst}
use megaserver.Common.{◌≡◌, ◌⊎◌, refl, sym, Bool, true, false, Option, none, some, if◌then◌else◌}
use megaserver.Result.{Result, ok, err, or_error}
use megaserver.State.{Db}
use megaserver.Exec.{AppError, io, Sys, M, raise, pure, ◌>>=◌, read, write, call, lift, attempt}
use megaserver.Exec.Rules.{Keeps}
use megaserver.Exec.Outcomes.{Gives, Gives-Keeps, OnReturn}

-- There is a value.
abbrev pub IsThere : {A : Type 0} → Option A → Type 0
IsThere none = ⊥
IsThere (some a) = Unit

-- The two calls of the host that code of the program answers, which fails on some of its inputs: spawn_service of
-- rust/src/runtime.rs, where limits cannot be read, and refresh_sandbox_policies of rust/src/network.rs, where addresses
-- or networks cannot.
abbrev pub IsExcused : AppError → Type 0
IsExcused e = (e ≡ io "spawn service") ⊎ (e ≡ io "apply sandbox network policy")

abbrev pub IsOk : {A B : Type 0} → Result AppError A × B → Type 0
IsOk (ok a, s) = Unit
IsOk (err e, s) = IsExcused e

-- A value came back, with this state of the database.
abbrev pub HasReturned : {W A : Type 0} → (A → Db → Type 0) → Result AppError A × Sys W → Type 0
HasReturned Q (ok a, s) = Q a s.db
HasReturned Q (err e, s) = ⊥

-- A value came back, with this state of the database, or one of those errors.
abbrev pub HasEnded : {W A : Type 0} → (A → Db → Type 0) → Result AppError A × Sys W → Type 0
HasEnded Q (ok a, s) = Q a s.db
HasEnded Q (err e, s) = IsExcused e

pub record Succeeds {W A : Type 0} (P : Db → Type 0) (m : M W A) : Type 0 where
  pub at : (s : Sys W) → P s.db → IsOk (m s)

module _ {W A : Type 0} where
  HasEnded-IsOk :
      (Q : A → Db → Type 0) (r : Result AppError A) (s : Sys W)
      → IsOk (r, s)
      → OnReturn Q (r, s)
      → HasEnded Q (r, s)
  HasEnded-IsOk Q (ok a) s o h = h
  HasEnded-IsOk Q (err e) s o h = o

module _ {W A : Type 0} {P : Db → Type 0} where
  pub Succeeds-pure : (a : A) → Succeeds P (pure {W = W} a)
  unfolding pure
  Succeeds-pure a = record { at = λ s h. tt }

  pub Succeeds-read : (f : Db → A) → Succeeds P (read {W = W} f)
  unfolding read
  Succeeds-read f = record { at = λ s h. tt }

  pub Succeeds-call : (f : W → A × W) → Succeeds P (call f)
  unfolding call
  Succeeds-call f = record { at = λ s h. tt }

  pub Succeeds-attempt : (m : M W A) → Succeeds P (attempt m)
  unfolding attempt
  Succeeds-attempt m = record { at = λ s h. tt }

  pub Succeeds-or_error :
      (o : Option A) (e : AppError)
      → ((db : Db) → P db → IsThere o)
      → Succeeds P (lift {W = W} (or_error o e))
  unfolding lift
  Succeeds-or_error none e k = record { at = λ s h. absurd (k s.db h) }
  Succeeds-or_error (some a) e k = record { at = λ s h. tt }

  pub Succeeds-lift :
      (r : Result AppError A) → ((db : Db) → P db → IsOk (r, tt {0})) → Succeeds P (lift {W = W} r)
  unfolding lift
  Succeeds-lift (ok a) k = record { at = λ s h. tt }
  Succeeds-lift (err e) k = record { at = λ s h. k s.db h }

  pub Succeeds-raise : (e : AppError) → IsExcused e → Succeeds P (raise {W = W} {A = A} e)
  unfolding raise
  Succeeds-raise e excused = record { at = λ s h. excused }

  pub Succeeds-or_excused :
      (o : Option A) (e : AppError) → IsExcused e → Succeeds P (lift {W = W} (or_error o e))
  unfolding lift
  Succeeds-or_excused none e excused = record { at = λ s h. excused }
  Succeeds-or_excused (some a) e excused = record { at = λ s h. tt }

  pub Succeeds-if :
      (b : Bool) (m n : M W A) → Succeeds P m → Succeeds P n → Succeeds P (if b then m else n)
  Succeeds-if true m n sm sn = sm
  Succeeds-if false m n sm sn = sn

  pub Succeeds-elim :
      (b : Bool) (m n : M W A)
      → Succeeds P m
      → Succeeds P n
      → Succeeds P (elim b as (λ _. M W A) [ true ↦ m | false ↦ n ])
  Succeeds-elim true m n sm sn = sm
  Succeeds-elim false m n sm sn = sn

  pub Succeeds-before :
      {S : Db → Type 0} (m : M W A) → ((db : Db) → S db → P db) → Succeeds P m → Succeeds S m
  Succeeds-before m f k = record { at = λ s h. k.at s (f s.db h) }

  -- A fact about values alone.
  pub Succeeds-pull : {X : Type 0} (m : M W A) → (X → Succeeds P m) → Succeeds (λ db. P db × X) m
  Succeeds-pull m k = record { at = λ s h. (k h.1).at s h.0 }

  -- Where it returns, what it gives holds.
  pub Succeeds-HasEnded :
      {Q : A → Db → Type 0} (m : M W A)
      → Succeeds P m
      → Gives P m Q
      → (s : Sys W) → P s.db
      → HasEnded Q (m s)
  Succeeds-HasEnded {Q} m k g s h = let (r, s') = m s in HasEnded-IsOk Q r s' (k.at s h) (g.at s h)

module _ {W : Type 0} {P : Db → Type 0} where
  pub Succeeds-write : (f : Db → Db) → Succeeds P (write {W = W} f)
  unfolding write
  Succeeds-write f = record { at = λ s h. tt }

module _ {W A B : Type 0} {Q : A → Db → Type 0} where
  IsOk-continue :
      (r : Result AppError A) (f : A → M W B) (s : Sys W)
      → IsOk (r, s)
      → OnReturn Q (r, s)
      → ((a : A) → Succeeds (Q a) (f a))
      → IsOk (megaserver.Exec.continue r f s)
  IsOk-continue (ok a) f s o h k = (k a).at s h
  IsOk-continue (err e) f s o h k = o

module _ {W A B : Type 0} (P : Db → Type 0) where
  IsOk-attempted :
      (r : Result AppError A) (s : Sys W)
      → IsOk (r, s)
      → P s.db
      → (f : Result AppError A → M W B)
      → ((r : Result AppError A) → IsOk (r, tt {0}) → Succeeds P (f r))
      → IsOk (f r s)
  IsOk-attempted (ok a) s o h f k = (k (ok a) tt).at s h
  IsOk-attempted (err e) s o h f k = (k (err e) o).at s h

module _ {W A B : Type 0} {P : Db → Type 0} where
  pub Succeeds-bind :
      {Q : A → Db → Type 0} (m : M W A) (f : A → M W B)
      → Succeeds P m
      → Gives P m Q
      → ((a : A) → Succeeds (Q a) (f a))
      → Succeeds P (m >>= f)
  unfolding ◌>>=◌
  Succeeds-bind {Q} m f k g kf = record {
    at = λ s h. let (r, s') = m s in IsOk-continue {Q = Q} r f s' (k.at s h) (g.at s h) kf;
  }

  -- After an action that keeps the precondition.
  pub Succeeds-bind_kept :
      (m : M W A) (f : A → M W B)
      → Succeeds P m
      → Keeps P m
      → ((a : A) → Succeeds P (f a))
      → Succeeds P (m >>= f)
  Succeeds-bind_kept m f k keeps kf = Succeeds-bind m f k (Gives-Keeps m keeps) kf

  -- After a call, with what is known of its answers.
  pub Succeeds-bind_call :
      {V : A → Type 0} (f : W → A × W) (g : A → M W B)
      → ((w : W) → V (f w).0)
      → ((a : A) → V a → Succeeds P (g a))
      → Succeeds P (call f >>= g)
  unfolding ◌>>=◌ call
  Succeeds-bind_call f g known k = record {
    at = λ s h. (k (f s.world).0 (known s.world)).at (record s { world = (f s.world).1 }) h;
  }

  -- After an action whose error, if any, becomes a value.
  pub Succeeds-bind_attempt :
      (m : M W A) (f : Result AppError A → M W B)
      → Succeeds P m
      → Keeps P m
      → ((r : Result AppError A) → IsOk (r, tt {0}) → Succeeds P (f r))
      → Succeeds P (attempt m >>= f)
  unfolding ◌>>=◌ attempt
  Succeeds-bind_attempt m f k keeps kf = record {
    at = λ s h. let (r, s') = m s in IsOk-attempted P r s' (k.at s h) (keeps.at s h) f kf;
  }

-- The action returns, and then this holds of the value and the database.
pub record Returns {W A : Type 0} (P : Db → Type 0) (m : M W A) (Q : A → Db → Type 0) : Type 0 where
  pub at : (s : Sys W) → P s.db → HasReturned Q (m s)

module _ {W A : Type 0} {P : Db → Type 0} {Q : A → Db → Type 0} where
  pub Returns-pure : (a : A) → ((db : Db) → P db → Q a db) → Returns P (pure {W = W} a) Q
  unfolding pure
  Returns-pure a k = record { at = λ s h. k s.db h }

  pub Returns-read : (f : Db → A) → ((db : Db) → P db → Q (f db) db) → Returns P (read {W = W} f) Q
  unfolding read
  Returns-read f k = record { at = λ s h. k s.db h }

  pub Returns-before :
      {S : Db → Type 0} (m : M W A) → ((db : Db) → S db → P db) → Returns P m Q → Returns S m Q
  Returns-before m f k = record { at = λ s h. k.at s (f s.db h) }

  pub Returns-pull : {X : Type 0} (m : M W A) → (X → Returns P m Q) → Returns (λ db. P db × X) m Q
  Returns-pull m k = record { at = λ s h. (k h.1).at s h.0 }

module _ {W A B : Type 0} {Q : A → Db → Type 0} {R : B → Db → Type 0} where
  HasReturned-continue :
      (r : Result AppError A) (f : A → M W B)
      → ((a : A) → Returns (Q a) (f a) R)
      → (s : Sys W) → HasReturned Q (r, s)
      → HasReturned R (megaserver.Exec.continue r f s)
  HasReturned-continue (ok a) f k s h = (k a).at s h
  HasReturned-continue (err e) f k s h = absurd h

  pub Returns-bind :
      {P : Db → Type 0} (m : M W A) (f : A → M W B)
      → Returns P m Q
      → ((a : A) → Returns (Q a) (f a) R)
      → Returns P (m >>= f) R
  unfolding ◌>>=◌
  Returns-bind m f k kf = record {
    at = λ s h. let (r, s') = m s in HasReturned-continue r f kf s' (k.at s h);
  }

module _ {W A : Type 0} {P : Db → Type 0} where
  -- A value at hand that is known.
  pub Returns-lift :
      (r : Result AppError A) (a : A)
      → r ≡ ok a
      → Returns P (lift {W = W} r) (λ x db. P db × (x ≡ a))
  unfolding lift
  Returns-lift r a e = record { at = λ s h. rw e (h, refl) }

  pub Returns-call :
      {V : A → Type 0} (f : W → A × W)
      → ((w : W) → V (f w).0)
      → Returns P (call f) (λ a db. P db × V a)
  unfolding call
  Returns-call f known = record { at = λ s h. (h, known s.world) }

-- After an action whose value is known.
module _ {W A B : Type 0} {P : Db → Type 0} {R : B → Db → Type 0} where
  pub Returns-bind_known :
      (a : A) (m : M W A) (f : A → M W B)
      → Returns P m (λ x db. P db × (x ≡ a))
      → Returns P (f a) R
      → Returns P (m >>= f) R
  Returns-bind_known a m f k kf =
      Returns-bind m f k λ x. Returns-pull (f x) (λ e. subst (λ y. Returns P (f y) R) (sym e) kf)

pub ruleset success_rules = (
  Succeeds-pure, Succeeds-read, Succeeds-call, Succeeds-attempt, Succeeds-write, Succeeds-if,
  Succeeds-bind_kept,
)
