-- ===== src/App/Succeeding/Calls.antt =====
-- The database calls, files and processes of rust/src/app.rs and rust/src/runtime.rs return on a cooperative host.
use megaserver.Common.{ℕ, zero, suc, String, Bool, true, false, Option, ◌≡◌, sym}
use mathlib.Core.Path.{subst}
use megaserver.Rows.{Stamp}
use megaserver.Json.{Json}
use megaserver.State.{Db}
use megaserver.Exec.{io}
use megaserver.Exec.Rules.{keeps_rules}
use megaserver.Exec.Successes.{
  Succeeds, Succeeds-pure, Succeeds-bind_kept, Succeeds-bind_call, Succeeds-or_error, Succeeds-elim,
  success_rules, IsThere, IsExcused, Succeeds-raise, Succeeds-or_excused,
}
use megaserver.Host.{Host}
use megaserver.Host.Database.{check_engine, open_db, query, exec, emit}
use megaserver.Host.Files.{check, must, must_give, ignore}
use megaserver.Host.Processes.{process_alive, finish_stop, poll_stop, terminate, stop_pid}
use megaserver.App.Constraints.{Keeps-process_alive}
use megaserver.App.Constraints.Reads.{base_rules, call_rules}
use megaserver.App.Succeeding.{IsCooperative}

module _ {W : Type 0} {P : Db → Type 0} where
  Succeeds-check : (what : String) (b : Bool) → b ≡ true → Succeeds P (check {W = W} what b)
  unfolding check
  Succeeds-check what b e =
      subst (λ x. Succeeds P (check {W = W} what x)) (sym e) (Succeeds-pure tt)

  pub Succeeds-must :
      (what : String) (f : W → Bool × W) → ((w : W) → (f w).0 ≡ true) → Succeeds P (must what f)
  unfolding must
  Succeeds-must what f known = Succeeds-bind_call f _ known (Succeeds-check what)

  pub Succeeds-ignore : (f : W → Bool × W) → Succeeds P (ignore f)
  unfolding ignore
  Succeeds-ignore f = search (success_rules, keeps_rules)

  pub Succeeds-must_give :
      {A : Type 0} (what : String) (f : W → Option A × W)
      → ((w : W) → IsThere (f w).0)
      → Succeeds P (must_give what f)
  unfolding must_give
  Succeeds-must_give what f known =
      Succeeds-bind_call {V = IsThere} f _ known (λ o there. Succeeds-or_error o _ (λ db h. there))

module _ {W : Type 0} {P : Db → Type 0} where
  Succeeds-check_excused :
      (what : String) (b : Bool) → IsExcused (io what) → Succeeds P (check {W = W} what b)
  unfolding check
  Succeeds-check_excused what true excused = Succeeds-pure tt
  Succeeds-check_excused what false excused = Succeeds-raise _ excused

  -- Calls that may fail, with an error that is one of those.
  pub Succeeds-must_excused :
      (what : String) (f : W → Bool × W) → IsExcused (io what) → Succeeds P (must what f)
  unfolding must
  Succeeds-must_excused what f excused =
      Succeeds-bind_call {V = λ b. Unit {0}} f _ (λ w. tt)
        (λ b u. Succeeds-check_excused what b excused)

  pub Succeeds-must_give_excused :
      {A : Type 0} (what : String) (f : W → Option A × W)
      → IsExcused (io what)
      → Succeeds P (must_give what f)
  unfolding must_give
  Succeeds-must_give_excused what f excused =
      Succeeds-bind_call {V = λ b. Unit {0}} f _ (λ w. tt) (λ o u. Succeeds-or_excused o _ excused)

module _ (host : Host) (able : IsCooperative host) {P : Db → Type 0} where
  Succeeds-check_engine :
      (what : String) (b : Bool) → b ≡ false → Succeeds P (check_engine host what b)
  unfolding check_engine
  Succeeds-check_engine what b e =
      subst (λ x. Succeeds P (check_engine host what x)) (sym e) (Succeeds-pure tt)

  pub Succeeds-open_db : Succeeds P (open_db host)
  unfolding open_db
  Succeeds-open_db = Succeeds-bind_call _ _ able.accepted (Succeeds-check_engine "database")

  pub Succeeds-query : {A : Type 0} (f : Db → A) → Succeeds P (query host f)
  unfolding query
  Succeeds-query f = search (success_rules, Succeeds-open_db, base_rules)

  pub Succeeds-exec : (f : Stamp → Db → Db) → Succeeds P (exec host f)
  unfolding exec
  Succeeds-exec f = search (success_rules, Succeeds-open_db, base_rules)

  pub Succeeds-emit :
      (owner : Option String) (kind : String) (details : Json)
      → Succeeds P (emit host owner kind details)
  unfolding emit
  Succeeds-emit owner kind details =
      Succeeds-bind_kept _ _ (Succeeds-or_error _ _ (λ db h. able.encoded details))
        (search keeps_rules) (λ text. Succeeds-exec _)

  Succeeds-finish_stop : (pid : ℕ) (b : Bool) → Succeeds P (finish_stop host pid b)
  unfolding finish_stop
  Succeeds-finish_stop pid true = Succeeds-must _ _ (able.signalled pid _)
  Succeeds-finish_stop pid false = search success_rules

  Succeeds-process_alive : (pid : ℕ) → Succeeds P (process_alive host pid)
  unfolding process_alive
  Succeeds-process_alive pid = search success_rules

  -- However long the process lives: the last signal ends the loop.
  Succeeds-poll_stop : (n pid : ℕ) → Succeeds P (poll_stop host n pid)
  unfolding poll_stop
  Succeeds-poll_stop zero pid =
      Succeeds-bind_kept _ _ (Succeeds-process_alive pid) (Keeps-process_alive host pid)
        (Succeeds-finish_stop pid)
  Succeeds-poll_stop (suc n) pid =
      Succeeds-bind_kept _ _ (Succeeds-process_alive pid) (Keeps-process_alive host pid)
        λ here. Succeeds-elim here _ _ (Succeeds-poll_stop n pid) (Succeeds-pure tt)

  Succeeds-terminate : (pid timeout : ℕ) (b : Bool) → Succeeds P (terminate host pid timeout b)
  unfolding terminate
  Succeeds-terminate pid timeout true =
      Succeeds-bind_kept _ _ (Succeeds-must _ _ (able.signalled pid _)) (search call_rules)
        λ u. search (success_rules, Succeeds-poll_stop, keeps_rules)
  Succeeds-terminate pid timeout false = search success_rules

  pub Succeeds-stop_pid : (pid timeout : ℕ) → Succeeds P (stop_pid host pid timeout)
  unfolding stop_pid
  Succeeds-stop_pid pid timeout =
      Succeeds-bind_kept _ _ (Succeeds-process_alive pid) (Keeps-process_alive host pid)
        (Succeeds-terminate pid timeout)
