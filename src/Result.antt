-- ===== src/Result.antt =====
-- `anyhow::Result` and `std::result::Result`: a value or an error.
use megaserver.Common.{ap, ◌≡◌, refl, Bool, true, false, Option, none, some}

pub data Result (E A : Type 0) : Type 0 where
  ok : A → Result E A
  err : E → Result E A

infixl 5 ◌>>=◌ ◌>>◌
abbrev pub ◌>>=◌ : {E A B : Type 0} → Result E A → (A → Result E B) → Result E B
ok a >>= f = f a
err e >>= f = err e

abbrev pub ◌>>◌ : {E B : Type 0} → Result E (Unit {0}) → Result E B → Result E B
m >> k = m >>= λ _. k

-- `bail!` unless the test holds.
abbrev pub guard : {E : Type 0} → Bool → E → Result E (Unit {0})
guard true e = ok tt
guard false e = err e

-- `ok_or_else`
abbrev pub or_error : {E A : Type 0} → Option A → E → Result E A
or_error none e = err e
or_error (some a) e = ok a

-- What holds of a value where there is one.
abbrev pub Holds : {E A : Type 0} → (A → Type 0) → Result E A → Type 0
Holds P (ok a) = P a
Holds P (err e) = Unit

pub record OnOk {E A : Type 0} (P : A → Type 0) (r : Result E A) : Type 0 where
  pub holds : Holds P r

module _ {E A : Type 0} where
  pub OnOk-ok : {P : A → Type 0} (a : A) → P a → OnOk {E = E} P (ok a)
  OnOk-ok a p = record { holds = p }

  pub OnOk-self : (r : Result E A) → OnOk (λ a. r ≡ ok a) r
  OnOk-self (ok a) = record { holds = refl }
  OnOk-self (err e) = record { holds = tt }

  pub OnOk-or_error : (o : Option A) (e : E) → OnOk (λ a. o ≡ some a) (or_error o e)
  OnOk-or_error none e = record { holds = tt }
  OnOk-or_error (some a) e = record { holds = refl }

  pub ok-injective : (a b : A) → ◌≡◌ {A = Result E A} (ok a) (ok b) → a ≡ b
  ok-injective a b e = ap (λ r. elim r [ ok x ↦ x | err x ↦ a ]) e

module _ {E A B : Type 0} {P : A → Type 0} {Q : B → Type 0} where
  pub OnOk-bind :
      (r : Result E A) (f : A → Result E B)
      → OnOk P r
      → ((a : A) → P a → OnOk Q (f a))
      → OnOk Q (r >>= f)
  OnOk-bind (ok a) f h k = k a h.holds
  OnOk-bind (err e) f h k = record { holds = tt }

module _ {E : Type 0} where
  pub OnOk-guard : (b : Bool) (e : E) → OnOk (λ u. b ≡ true) (guard b e)
  OnOk-guard true e = record { holds = refl }
  OnOk-guard false e = record { holds = tt }

module _ {E A : Type 0} {P Q : A → Type 0} where
  pub OnOk-weaken : ((a : A) → P a → Q a) → (r : Result E A) → OnOk P r → OnOk Q r
  OnOk-weaken f (ok a) h = record { holds = f a h.holds }
  OnOk-weaken f (err e) h = record { holds = tt }
