-- ===== src/HttpHost/Attempts.antt =====
-- The attempts of `handle_fzy_http` in rust/src/http_host.rs.
use megaserver.Common.{
  ℕ, suc, ◌+◌, ◌≡◌, refl, sym, ap, ◌∙◌, ◌⊎◌, ◌&&◌, ltb, if◌then◌else◌, true, false, Option, none,
  some, Bool-cases, inl, inr,
}
use megaserver.Result.{Result, ok, err}
use megaserver.Json.{Json}
use megaserver.Control.{Error}
use megaserver.HttpHost.{Failure, retriable, attempts, after_loop, internal_error}

abbrev pub settled : Result Error Json → Result Failure Json
settled (ok value) = ok value
settled (err e) = err (internal_error e)

-- The first of three answers that is not transient, or the third.
abbrev pub first_settled : (ℕ → Result Error Json) → Result Error Json
first_settled answers =
    if retriable (answers 0)
    then if retriable (answers 1) then answers 2 else answers 1
    else answers 0

Result-cases :
    (r : Result Error Json) → ((value : Json) × (r ≡ ok value)) ⊎ ((e : Error) × (r ≡ err e))
Result-cases (ok value) = inl (value, refl)
Result-cases (err e) = inr (e, refl)

module _ (answers : ℕ → Result Error Json) (rounds n : ℕ) (last_err : Option Error) where
  attempts-settled :
      (retriable (answers n) && ltb n 2) ≡ false
      → after_loop (attempts answers (suc rounds) n last_err) ≡ settled (answers n)
  unfolding attempts
  attempts-settled h = elim (Result-cases (answers n)) [
    | inl (value, e) ↦ rw (attempts, e, sym (ap (λ r. retriable r && ltb n 2) e) ∙ h) refl
    | inr (causes, e) ↦ rw (attempts, e, sym (ap (λ r. retriable r && ltb n 2) e) ∙ h) refl
  ]

  attempts-transient :
      (x : Result Failure Json)
      → (retriable (answers n) && ltb n 2) ≡ true
      → ((later : Option Error) → after_loop (attempts answers rounds (n + 1) later) ≡ x)
      → after_loop (attempts answers (suc rounds) n last_err) ≡ x
  unfolding attempts
  attempts-transient x h k = elim (Result-cases (answers n)) [
    | inl (value, e) ↦ rw (attempts, e, sym (ap (λ r. retriable r && ltb n 2) e) ∙ h) (k last_err)
    | inr (causes, e) ↦
        rw (attempts, e, sym (ap (λ r. retriable r && ltb n 2) e) ∙ h) (k (some causes))
  ]

module _ (answers : ℕ → Result Error Json) where
  third :
      (last_err : Option Error) → after_loop (attempts answers 1 2 last_err) ≡ settled (answers 2)
  third last_err =
      attempts-settled answers 0 2 last_err
        (elim (Bool-cases (retriable (answers 2))) [ inl e ↦ rw e refl | inr e ↦ rw e refl ])

  second :
      (last_err : Option Error)
      → after_loop (attempts answers 2 1 last_err)
        ≡ settled (if retriable (answers 1) then answers 2 else answers 1)
  second last_err = elim (Bool-cases (retriable (answers 1))) [
    | inl e ↦ rw e (attempts-transient answers 1 1 last_err (settled (answers 2)) (rw e refl) third)
    | inr e ↦ rw e (attempts-settled answers 1 1 last_err (rw e refl))
  ]

  -- What the loop and the code after it make of the answers is what the first of three that is not transient gives, or
  -- the third: there is always a response or an error to return, so the `expect` does not panic.
  pub after_loop-attempts : after_loop (attempts answers 3 0 none) ≡ settled (first_settled answers)
  after_loop-attempts = elim (Bool-cases (retriable (answers 0))) [
    | inl e ↦ rw e (
        attempts-transient answers 2 0 none
          (settled (if retriable (answers 1) then answers 2 else answers 1)) (rw e refl) second)
    | inr e ↦ rw e (attempts-settled answers 2 0 none (rw e refl))
  ]
