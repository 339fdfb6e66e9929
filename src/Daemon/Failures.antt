-- ===== src/Daemon/Failures.antt =====
-- A pass of rust/src/daemon.rs where no process is left.
use mathlib.Core.Option
use mathlib.Core.Path.{subst}
use megaserver.Common.{
  ℕ, String, ◌≡◌, refl, sym, ◌∙◌, Bool, true, false, Option, none, some, List, [], ◌∷◌, All, ◌==◌,
  if◌then◌else◌, arith, eq_refl,
}
use megaserver.Rows.{Stamp}
use megaserver.Json.{Json}
use megaserver.Model.{ServiceRecord, SandboxRecord}
use megaserver.State.{Db}
use megaserver.State.Services.{service_by_name, update_service_status, with_status, list_services}
use megaserver.State.Sandboxes.{SandboxUpsert, upsert_sandbox, list_sandboxes}
use megaserver.State.Resources.{emit_event}
use megaserver.State.Lookups.{service_by_name-update_service_status}
use megaserver.Exec.{◌>>=◌, call}
use megaserver.Exec.Rules.{Keeps, Keeps-bind, keeps_rules}
use megaserver.Exec.Outcomes.{
  Gives, Gives-bind, Gives-Keeps, Gives-weaken, Gives-before, Gives-pure, Gives-if, Gives-and,
  Gives-pull,
}
use megaserver.Host.{Host}
use megaserver.Host.Database.{exec, emit, query, open_db}
use megaserver.App.Network.{refresh_linux_network_policies, stop_if_idle}
use megaserver.Host.Processes.{process_alive}
use megaserver.App.Stop.{stop_sandbox}
use megaserver.App.Constraints.{Keeps-exec}
use megaserver.App.Constraints.Reads.{call_rules, Keeps-emit_event}
use megaserver.App.Stopping.{Gives-exec, Gives-query}
use megaserver.Daemon.{
  fail_service, reconcile_process, reconcile_service, reconcile_services, is_stale,
  reconcile_sandbox, reconcile_sandboxes, reconcile_once,
}

-- The row of a service is gone, or says "failed" and has no process.
abbrev pub IsFailed : Option ServiceRecord → Type 0
IsFailed none = Unit
IsFailed (some r) = (r.status ≡ "failed") × (r.pid ≡ none)

-- A listed row that has a process and is not stopped.
abbrev pub IsRunning : ServiceRecord → Type 0
IsRunning r = ((pid : ℕ) × (r.pid ≡ some pid)) × ((r.status == "stopped") ≡ false)

abbrev pub HasFailed : ServiceRecord → Db → Type 0
HasFailed r db = IsRunning r → IsFailed (service_by_name db r.name)

marked-IsFailed :
    (st : Stamp) (here : Bool) (o : Option ServiceRecord)
    → IsFailed o
    → IsFailed (if here then Option.map (with_status st "failed" none) o else o)
marked-IsFailed st true none h = tt
marked-IsFailed st true (some r) h = (refl, refl)
marked-IsFailed st false o h = h

newly-IsFailed :
    (st : Stamp) (o : Option ServiceRecord) → IsFailed (Option.map (with_status st "failed" none) o)
newly-IsFailed st none = tt
newly-IsFailed st (some r) = (refl, refl)

module _ (host : Host)
    (dead : (pid : ℕ) (w : Host.World host) → (Host.alive host pid w).0 ≡ false) where
  open host use {World}

  -- What a pass writes where no process is left.
  record IsSettled (P : Db → Type 0) : Type 0 where
    failed :
        (st : Stamp) (name : String) (db : Db)
        → P db
        → P (update_service_status st name "failed" none db)
    sandbox : (st : Stamp) (s : SandboxUpsert) (db : Db) → P db → P (upsert_sandbox st s db)
    event :
        (st : Stamp) (owner : Option String) (kind details : String) (db : Db)
        → P db
        → P (emit_event st owner kind details db)

  HasFailed-IsSettled : (r : ServiceRecord) → IsSettled (HasFailed r)
  unfolding service_by_name upsert_sandbox emit_event
  HasFailed-IsSettled r = record {
    failed = λ st name db h running.
        rw service_by_name-update_service_status
          (marked-IsFailed st (name == r.name) (service_by_name db r.name) (h running));
    sandbox = λ st s db h. h;
    event = λ st owner kind details db h. h;
  }

  module _ {P : Db → Type 0} (settled : IsSettled P) where
    Keeps-sandbox :
        (service : String) (o : Option SandboxRecord) → Keeps P (stop_sandbox host service o)
    unfolding stop_sandbox
    Keeps-sandbox service none = search keeps_rules
    Keeps-sandbox service (some r) =
        Keeps-bind _ _ (search call_rules)
          (λ u. Keeps-exec host _ (λ st db. settled.sandbox st _ db))

    Keeps-failed :
        (name : String) → Keeps P (exec host (λ st. update_service_status st name "failed" none))
    Keeps-failed name = Keeps-exec host _ (λ st db. settled.failed st name db)

    Keeps-event :
        (owner : Option String) (kind : String) (details : Json)
        → Keeps P (emit host owner kind details)
    Keeps-event owner kind details =
        Keeps-emit_event host owner kind details (λ st text db. settled.event st owner kind text db)

    Keeps-fail_service : (r : ServiceRecord) (pid : ℕ) → Keeps P (fail_service host r pid)
    unfolding fail_service
    Keeps-fail_service r pid = search (call_rules, Keeps-sandbox, Keeps-failed, Keeps-event)

    Gives-dead : (pid : ℕ) → Gives P (process_alive host pid) (λ here db. P db × (here ≡ false))
    unfolding process_alive call
    Gives-dead pid = record { at = λ s h. (h, dead pid s.world) }

    Gives-process_other :
        (r : ServiceRecord) (pid : ℕ) (here : Bool)
        → here ≡ false
        → Gives P (reconcile_process host r pid here) (λ u db. P db)
    unfolding reconcile_process
    Gives-process_other r pid true e = absurd (ground arith)
    Gives-process_other r pid false e = Gives-Keeps _ (search (call_rules, Keeps-fail_service))

    Gives-service_other :
        (r : ServiceRecord) (pid : Option ℕ) → Gives P (reconcile_service host r pid) (λ u db. P db)
    unfolding reconcile_service
    Gives-service_other r none = Gives-Keeps _ (search keeps_rules)
    Gives-service_other r (some pid) = Gives-bind _ _ (Gives-dead pid) λ here. Gives-pull _ λ e.
        Gives-bind _ _ (Gives-Keeps _ (search call_rules)) λ u. Gives-process_other r pid here e

    Gives-services_other :
        (rs : List ServiceRecord) → Gives P (reconcile_services host rs) (λ u db. P db)
    unfolding reconcile_services
    Gives-services_other [] = Gives-Keeps _ (search keeps_rules)
    Gives-services_other (r ∷ rs) =
        Gives-bind _ _ (Gives-service_other r r.pid) (λ u. Gives-services_other rs)

    Keeps-is_stale : (pid : Option ℕ) → Keeps P (is_stale host pid)
    unfolding is_stale
    Keeps-is_stale none = search keeps_rules
    Keeps-is_stale (some pid) = search call_rules

    Keeps-reconcile_sandbox :
        (r : SandboxRecord) (stale : Bool) → Keeps P (reconcile_sandbox host r stale)
    unfolding reconcile_sandbox
    Keeps-reconcile_sandbox r stale = search (call_rules, Keeps-sandbox)

    Keeps-reconcile_sandboxes : (rs : List SandboxRecord) → Keeps P (reconcile_sandboxes host rs)
    unfolding reconcile_sandboxes
    Keeps-reconcile_sandboxes [] = search keeps_rules
    Keeps-reconcile_sandboxes (r ∷ rs) = Keeps-bind _ _ (Keeps-is_stale r.pid) λ stale.
        Keeps-bind _ _ (Keeps-reconcile_sandbox r stale) (λ u. Keeps-reconcile_sandboxes rs)

  unit_settled : IsSettled (λ db. Unit {0})
  unit_settled = record {
    failed = λ st name db h. tt;
    sandbox = λ st s db h. tt;
    event = λ st owner kind details db h. tt;
  }

  stop_any :
      (service : String) (o : Option SandboxRecord)
      → Keeps (λ db. Unit {0}) (stop_sandbox host service o)
  stop_any = Keeps-sandbox unit_settled

  set-IsFailed :
      (st : Stamp) (name : String) (db : Db)
      → IsFailed (service_by_name (update_service_status st name "failed" none db) name)
  set-IsFailed st name db =
      rw (service_by_name-update_service_status, eq_refl)
        (newly-IsFailed st (service_by_name db name))

  -- The service that is looked at.
  Gives-fail_service :
      (r : ServiceRecord) (pid : ℕ)
      → Gives
          (λ db. Unit {0})
          (fail_service host r pid)
          (λ u db. IsFailed (service_by_name db r.name))
  unfolding fail_service emit_event service_by_name
  Gives-fail_service r pid =
      Gives-bind _ _ (Gives-Keeps {P = λ db. Unit {0}} _ (search call_rules)) λ o.
        Gives-bind _ _ (Gives-Keeps {P = λ db. Unit {0}} _ (stop_any r.name o)) λ u.
          Gives-bind _ _ (Gives-exec host _ (λ st db h. set-IsFailed st r.name db))
            λ v. Gives-Keeps _ (Keeps-emit_event host _ _ _ (λ st text db h. h))

  Gives-process :
      (r : ServiceRecord) (pid : ℕ) (here : Bool)
      → here ≡ false
      → Gives (λ db. Unit {0}) (reconcile_process host r pid here) (λ u db. HasFailed r db)
  unfolding reconcile_process
  Gives-process r pid true e = absurd (ground arith)
  Gives-process r pid false e =
      Gives-if (r.status == "stopped") _ _
        (λ stopped. Gives-pure _ (λ db h running. absurd (ground (arith, stopped, running.1))))
        (λ going. Gives-weaken _ (λ u db h running. h) (Gives-fail_service r pid))

  Gives-service :
      (r : ServiceRecord) (pid : Option ℕ)
      → r.pid ≡ pid
      → Gives (λ db. Unit {0}) (reconcile_service host r pid) (λ u db. HasFailed r db)
  unfolding reconcile_service
  Gives-service r none e = Gives-pure _ (λ db h running. absurd (ground (arith, e, running.0.1)))
  Gives-service r (some pid) e = Gives-bind _ _ (Gives-dead (unit_settled) pid) λ here.
      Gives-pull _ λ d.
        Gives-bind _ _ (Gives-Keeps {P = λ db. Unit {0}} _ (search call_rules))
          λ u. Gives-process r pid here d

  Gives-services :
      (rs : List ServiceRecord)
      → Gives (λ db. Unit {0}) (reconcile_services host rs) (λ u db. All (λ r. HasFailed r db) rs)
  unfolding reconcile_services
  Gives-services [] = Gives-pure _ (λ db h. tt)
  Gives-services (r ∷ rs) = Gives-bind _ _ (Gives-service r r.pid refl) λ u.
      Gives-and _ (Gives-services_other (HasFailed-IsSettled r) rs)
        (Gives-before _ (λ db h. tt) (Gives-services rs))

  All-IsSettled : (rs : List ServiceRecord) → IsSettled (λ db. All (λ r. HasFailed r db) rs)
  All-IsSettled [] = unit_settled
  All-IsSettled (r ∷ rs) =
      let one = HasFailed-IsSettled r in
      let more = All-IsSettled rs in
      record {
        failed = λ st name db h. (one.failed st name db h.0, more.failed st name db h.1);
        sandbox = λ st s db h. (one.sandbox st s db h.0, more.sandbox st s db h.1);
        event = λ st owner kind details db h.
            (one.event st owner kind details db h.0, more.event st owner kind details db h.1);
      }

  after_listing :
      (listed : List ServiceRecord)
      → Gives
          (λ db. Unit {0})
          (query host list_sandboxes >>= λ sandboxes. reconcile_services host listed >>= λ u.
            reconcile_sandboxes host sandboxes >>= λ v.
            open_db host >>= λ w. refresh_linux_network_policies host >>= λ x. stop_if_idle host)
          (λ u db. All (λ r. HasFailed r db) listed)
  after_listing listed =
      Gives-bind _ _ (Gives-Keeps {P = λ db. Unit {0}} _ (search call_rules)) λ sandboxes.
        Gives-bind _ _ (Gives-services listed) λ u. Gives-Keeps _ (
          Keeps-bind _ _ (Keeps-reconcile_sandboxes (All-IsSettled listed) sandboxes)
            λ v. search call_rules)

  -- Where no process is alive, a pass that returns leaves every service that was listed with a process, and not as
  -- stopped, as "failed" and without one.
  pub reconcile_once-HasFailed :
      (services : List ServiceRecord)
      → Gives
          (λ db. list_services db ≡ services)
          (reconcile_once host)
          (λ u db. All (λ r. HasFailed r db) services)
  unfolding reconcile_once
  reconcile_once-HasFailed services = Gives-bind _ _ (Gives-Keeps _ (search call_rules)) λ u.
      Gives-bind _ _
        (Gives-weaken _ (λ listed db h. (tt, sym h.1 ∙ h.0)) (Gives-query host list_services))
        λ listed. Gives-pull {P = λ db. Unit {0}} _ λ same.
          Gives-weaken _ (λ v db h. subst (All (λ r. HasFailed r db)) same h) (after_listing listed)
