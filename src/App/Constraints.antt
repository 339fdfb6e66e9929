-- ===== src/App/Constraints.antt =====
-- The calls that the operations of rust/src/app.rs make keep every property of the database.
pub mod Reads
pub mod OfService
pub mod Inspect
pub mod Rollback
use megaserver.Common.{
  ℕ, zero, suc, String, Bool, true, false, Option, none, some, List, [], ◌∷◌, ◌≡◌, if◌then◌else◌,
}
use megaserver.Result.{Result, ok, err}
use megaserver.Rows.{Stamp}
use megaserver.Paths.{StatePaths}
use megaserver.Json.{Json}
use megaserver.Model.{ServiceRecord, SandboxRecord}
use megaserver.Manifest.{ServiceManifest}
use megaserver.State.{Db}
use megaserver.State.WellFormed
use megaserver.State.WellFormed.{Write}
use megaserver.Exec.{M, Sys, pure, ◌>>=◌, write, call}
use megaserver.Exec.Rules.{
  Keeps, Keeps-write, Keeps-try_write, Keeps-attempt, Keeps-bind, Keeps-elim, keeps_rules,
}
use megaserver.Host.{Host, SpawnedService}
use megaserver.Host.Database.{check_engine, open_db, query, exec, emit}
use megaserver.Host.Files.{check, must, must_give, ignore}
use megaserver.Host.Processes.{
  process_alive, finish_stop, poll_stop, terminate, stop_pid, poll_health, accepts,
  health_check_with_timeout, health_check,
}
use megaserver.App.Support
use megaserver.App.Network
use megaserver.App.Stop

module _ {W : Type 0} {P : Db → Type 0} where
  Keeps-check : (what : String) (b : Bool) → Keeps P (check {W = W} what b)
  unfolding check
  Keeps-check what true = search keeps_rules
  Keeps-check what false = search keeps_rules

  pub Keeps-must : (what : String) (f : W → Bool × W) → Keeps P (must what f)
  unfolding must
  Keeps-must what f = search (keeps_rules, Keeps-check)

  pub Keeps-ignore : (f : W → Bool × W) → Keeps P (ignore f)
  unfolding ignore
  Keeps-ignore f = search keeps_rules

module _ {W A : Type 0} {P : Db → Type 0} where
  pub Keeps-must_give : (what : String) (f : W → Option A × W) → Keeps P (must_give what f)
  unfolding must_give
  Keeps-must_give what f = search keeps_rules

ruleset call_rules = (keeps_rules, Keeps-must, Keeps-ignore, Keeps-must_give)

-- What reads the database and calls the host keeps every property.
module _ (host : Host) {P : Db → Type 0} where
  open host use {World}

  Keeps-check_engine : (what : String) (b : Bool) → Keeps P (check_engine host what b)
  unfolding check_engine
  Keeps-check_engine what true = search keeps_rules
  Keeps-check_engine what false = search keeps_rules

  pub Keeps-open_db : Keeps P (open_db host)
  unfolding open_db
  Keeps-open_db = search (keeps_rules, Keeps-check_engine)

  pub Keeps-query : {A : Type 0} (f : Db → A) → Keeps P (query host f)
  unfolding query
  Keeps-query f = Keeps-bind (open_db host) _ Keeps-open_db (λ u. search keeps_rules)

  pub Keeps-exec :
      (f : Stamp → Db → Db) → ((st : Stamp) (db : Db) → P db → P (f st db)) → Keeps P (exec host f)
  unfolding exec
  Keeps-exec f k =
      Keeps-bind (open_db host) _ Keeps-open_db
        λ u. Keeps-bind _ _ (search keeps_rules) λ st. Keeps-write (f st) (k st)

  pub Keeps-process_alive : (pid : ℕ) → Keeps P (process_alive host pid)
  unfolding process_alive
  Keeps-process_alive pid = search keeps_rules

  Keeps-finish_stop : (pid : ℕ) (b : Bool) → Keeps P (finish_stop host pid b)
  unfolding finish_stop
  Keeps-finish_stop pid true = search call_rules
  Keeps-finish_stop pid false = search call_rules

  Keeps-poll_stop : (n pid : ℕ) → Keeps P (poll_stop host n pid)
  unfolding poll_stop
  Keeps-poll_stop zero pid = search (call_rules, Keeps-finish_stop)
  Keeps-poll_stop (suc n) pid =
      Keeps-bind _ _ (Keeps-process_alive pid)
        λ here. Keeps-elim here _ _ (Keeps-poll_stop n pid) (search keeps_rules)

  Keeps-terminate : (pid timeout : ℕ) (b : Bool) → Keeps P (terminate host pid timeout b)
  unfolding terminate
  Keeps-terminate pid timeout true = search (call_rules, Keeps-poll_stop)
  Keeps-terminate pid timeout false = search call_rules

  pub Keeps-stop_pid : (pid timeout : ℕ) → Keeps P (stop_pid host pid timeout)
  unfolding stop_pid
  Keeps-stop_pid pid timeout = search (call_rules, Keeps-terminate)

  Keeps-poll_health : (n : ℕ) (url : String) → Keeps P (poll_health host n url)
  unfolding poll_health
  Keeps-poll_health zero url = search keeps_rules
  Keeps-poll_health (suc n) url =
      Keeps-bind _ _ (search keeps_rules)
        λ answer. Keeps-elim (accepts answer) _ _ (search keeps_rules) (Keeps-poll_health n url)

  pub Keeps-health_check_with_timeout :
      (address : String) (port : Option ℕ) (path : Option String) (timeout : ℕ)
      → Keeps P (health_check_with_timeout host address port path timeout)
  unfolding health_check_with_timeout
  Keeps-health_check_with_timeout address none path timeout = search keeps_rules
  Keeps-health_check_with_timeout address (some port) path timeout =
      search (keeps_rules, Keeps-poll_health)

  pub Keeps-health_check :
      (address : String) (port : Option ℕ) (path : Option String)
      → Keeps P (health_check host address port path)
  unfolding health_check
  Keeps-health_check address port path = Keeps-health_check_with_timeout address port path 10000
