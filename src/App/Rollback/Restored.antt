-- ===== src/App/Rollback/Restored.antt =====
-- What `rollback_only` of rust/src/app.rs leaves behind, when it returns and when it fails.
use mathlib.Core.Option
use mathlib.Core.Option.{none-ne-some, some-injective}
use megaserver.Common.{
  String, ◌≡◌, ◌∙◌, refl, Bool, true, false, Option, none, some, List, arith, eq_refl,
}
use megaserver.Result.{Result, ok, err, or_error}
use megaserver.Rows.{Stamp}
use megaserver.Paths.{StatePaths}
use megaserver.Json.{Json}
use megaserver.Model.{ServiceRecord}
use megaserver.State.{Db}
use megaserver.State.Services.{service_by_name, update_service_status, with_status}
use megaserver.State.Resources.{emit_event}
use megaserver.State.Lookups.{service_by_name-update_service_status}
use megaserver.Exec.{AppError, io, rollback_restored, unknown_service, raise, lift, ◌>>◌}
use megaserver.Exec.Outcomes.{
  Gives, Gives-bind, Gives-Keeps, Gives-weaken, Gives-pure, Gives-before,
}
use megaserver.Exec.Endings.{
  Ends, Ends-bind, Ends-call, Ends-answer, Ends-read, Ends-pure, Ends-raise, Ends-before, OnOutcome,
  Ends-write, Ends-weaken, Ends-attempted, Ends-attempt_any, Ends-lift_ok, Ends-lift_err,
}
use megaserver.Host.{Host}
use megaserver.Host.Database.{check_engine, open_db, query, exec, emit}
use megaserver.Host.Files.{ignore, must_give}
use megaserver.App.Support.{load_service}
use megaserver.App.Constraints.{Keeps-open_db}
use megaserver.App.Constraints.Rollback.{Keeps-restart_recovered, Keeps-restore_service_files}
use megaserver.App.Stopping.{Gives-exec}
use megaserver.App.Rollback.{
  RollbackBackup, was_running, restored, restored_status, restore_service_record, restart_recovered,
  recover, stop_remains, finish_rollback, failed_rollback,
}
use megaserver.App.Rollback.Settings.{
  IsSetAs, HasSettings, upsert_service-IsSetAs, IsSetAs-update_service_status, IsSetAs-IsStableFor,
}

-- The row has this status and no process.
abbrev pub IsIdle : String → Option ServiceRecord → Type 0
IsIdle status none = ⊥
IsIdle status (some r) = (r.status ≡ status) × (r.pid ≡ none)

-- The row has the settings of `r`, and if `r` was not running, its status and no process.
abbrev pub IsAsBefore : String → ServiceRecord → Db → Type 0
IsAsBefore service r db =
    IsSetAs (restored service r false) db
    × (was_running r ≡ false → IsIdle r.status (service_by_name db service))

IsIdle-with_status :
    (u : _) (st : Stamp) (status : String) (o : Option ServiceRecord)
    → HasSettings u o
    → IsIdle status (Option.map (with_status st status none) o)
IsIdle-with_status u st status none h = absurd h
IsIdle-with_status u st status (some r) h = (refl, refl)

module _ (host : Host) (paths : StatePaths) (service : String) (r : ServiceRecord) where
  marked-IsIdle :
      (status : String) (st : Stamp) (db : Db)
      → IsSetAs (restored service r false) db
      → IsSetAs (restored service r false) (update_service_status st service status none db)
        × IsIdle status (service_by_name (update_service_status st service status none db) service)
  marked-IsIdle status st db h = (
    IsSetAs-update_service_status (restored service r false) st service status none db h,
    rw (service_by_name-update_service_status, eq_refl)
        (IsIdle-with_status (restored service r false) st status _ h),
  )

  Gives-restore_service_record :
      (running : Bool)
      → Gives
          (λ db. Unit {0})
          (restore_service_record host paths service r running)
          (λ u db.
            IsSetAs (restored service r false) db
            × IsIdle (restored_status r running) (service_by_name db service))
  unfolding restore_service_record
  Gives-restore_service_record running = Gives-bind _ _ (Gives-Keeps _ (Keeps-open_db host)) λ u.
      Gives-bind _ _ (Gives-exec host _ (λ st db h. upsert_service-IsSetAs _ st db))
        λ v. Gives-exec host _ (λ st db h. marked-IsIdle _ st db h)

  Gives-restart_recovered :
      (running : Bool)
      → was_running r ≡ running
      → Gives
          (λ db.
            IsSetAs (restored service r false) db
            × IsIdle (restored_status r running) (service_by_name db service))
          (restart_recovered host paths service r running)
          (λ u. IsAsBefore service r)
  unfolding restart_recovered
  Gives-restart_recovered false e = Gives-pure tt (λ db h. (h.0, λ idle. h.1))
  Gives-restart_recovered true e =
      Gives-before _ (λ db h. h.0)
        (Gives-weaken _ (λ u db h. (h, λ idle. absurd (ground arith)))
          (Gives-Keeps _ (
            Keeps-restart_recovered host paths service
              (IsSetAs-IsStableFor (restored service r false) service) r true)))

  Gives-recover :
      (volumes : List String) (backup : RollbackBackup)
      → Gives
          (λ db. Unit {0})
          (recover host paths service r volumes backup)
          (λ u. IsAsBefore service r)
  unfolding recover
  Gives-recover volumes backup =
      Gives-bind _ _ (Gives-Keeps _ (search Keeps-restore_service_files)) λ u.
        Gives-bind _ _ (Gives-restore_service_record (was_running r))
          λ v. Gives-restart_recovered (was_running r) refl

-- The error that says that the service is back to what it was.
abbrev pub SaysRestored : AppError → Type 0
SaysRestored (rollback_restored snapshot e) = Unit
SaysRestored _ = ⊥

abbrev pub IfRestored : (Db → Type 0) → AppError → Db → Type 0
IfRestored F e db = SaysRestored e → F db

-- The errors of the calls around the recovery do not say so.
module _ (host : Host) {P F : Db → Type 0} where
  Ends-check_engine :
      (what : String) (b : Bool) → Ends P (check_engine host what b) (λ u. P) (IfRestored F)
  unfolding check_engine
  Ends-check_engine what true = Ends-raise _ _ (λ db h says. absurd says)
  Ends-check_engine what false = Ends-pure tt (λ db h. h)

  Ends-open_db : Ends P (open_db host) (λ u. P) (IfRestored F)
  unfolding open_db
  Ends-open_db = Ends-bind _ _ (Ends-call _) λ refused. Ends-check_engine "database" refused

  pub Ends-ignore :
      (f : Host.World host → Bool × Host.World host) → Ends P (ignore f) (λ u. P) (IfRestored F)
  unfolding ignore
  Ends-ignore f = Ends-bind _ _ (Ends-call f) λ done. Ends-pure tt (λ db h. h)

  pub Ends-or_error :
      {A : Type 0} (found : Option A) (e : AppError)
      → ¬ SaysRestored e
      → Ends P
          (lift {W = Host.World host} (or_error found e))
          (λ a db. P db × (found ≡ some a))
          (IfRestored F)
  Ends-or_error none e k = Ends-lift_err e (λ db h says. absurd (k says))
  Ends-or_error (some a) e k = Ends-lift_ok a (λ db h. (h, refl))

  Ends-emit :
      (owner : Option String) (kind : String) (details : Json)
      → ((st : Stamp) (text : String) (db : Db) → P db → P (emit_event st owner kind text db))
      → Ends P (emit host owner kind details) (λ u. P) (IfRestored F)
  unfolding emit exec
  Ends-emit owner kind details k =
      Ends-bind _ _ (Ends-or_error (Host.encode_json host details) (io "details") (λ says. says))
        λ text.
          Ends-before _ (λ db h. h.0)
            (Ends-bind _ _ Ends-open_db
              λ u. Ends-bind _ _ (Ends-call _) λ st. Ends-write _ (λ db h. k st text db h))

module _ (host : Host) {F : Db → Type 0} where
  pub Ends-must_give :
      {P : Db → Type 0} {A : Type 0} (what : String)
      (f : Host.World host → Option A × Host.World host)
      → Ends P
          (must_give what f)
          (λ a db. P db × ((w : Host.World host) × ((f w).0 ≡ some a)))
          (IfRestored F)
  unfolding must_give
  Ends-must_give what f = Ends-bind _ _ (Ends-answer f) λ found.
      Ends-weaken _ (λ a db h. (h.0.0, (h.0.1.0, h.0.1.1 ∙ h.1)))
        (Ends-or_error host found (io what) (λ says. says))

  pub Ends-query :
      {P : Db → Type 0} {A : Type 0} (f : Db → A)
      → Ends P (query host f) (λ a db. P db × (f db ≡ a)) (IfRestored F)
  unfolding query
  Ends-query f = Ends-bind _ _ (Ends-open_db host) λ u. Ends-read f

  Ends-load_service :
      {P : Db → Type 0} (service : String)
      → Ends P
          (load_service host service)
          (λ r db. P db × (service_by_name db service ≡ some r))
          (IfRestored F)
  unfolding load_service
  Ends-load_service service = Ends-bind _ _ (Ends-open_db host) λ u.
      Ends-bind _ _ (Ends-query (λ db. service_by_name db service)) λ found.
        Ends-weaken _ (λ r db h. (h.0.0, h.0.1 ∙ h.1))
          (Ends-or_error host found (unknown_service service) (λ says. says))

module _ (host : Host) (paths : StatePaths) (service snapshot : String) (r : ServiceRecord) where
  IsAsBefore-event :
      (st : Stamp) (kind text : String) (db : Db)
      → IsAsBefore service r db
      → IsAsBefore service r (emit_event st (some service) kind text db)
  unfolding emit_event service_by_name
  IsAsBefore-event st kind text db h = h

  -- After the recovery: the event, and the error that tells how it went.
  Ends-report :
      (details : Json) (e : AppError) (recovery : Result AppError (Unit {0}))
      → Ends
          (OnOutcome (λ u. IsAsBefore service r) (λ x db. Unit) recovery)
          (do
            emit host (some service) "snapshot.rollback.failed" details
            raise {A = Unit {0}} (failed_rollback snapshot e recovery))
          (λ u db. ⊥)
          (IfRestored (IsAsBefore service r))
  Ends-report details e (ok u) =
      Ends-bind _ _
        (Ends-emit host (some service) _ details
          (λ st text db h. IsAsBefore-event st "snapshot.rollback.failed" text db h))
        λ v. Ends-raise _ _ (λ db h says. h)
  Ends-report details e (err x) =
      Ends-bind _ _ (Ends-emit host (some service) _ details (λ st text db h. tt))
        λ v. Ends-raise _ _ (λ db h says. absurd says)

  Ends-stop_remains :
      (running : Bool)
      → Ends
          (λ db. Unit {0})
          (stop_remains host paths service running)
          (λ u db. Unit)
          (IfRestored (IsAsBefore service r))
  unfolding stop_remains
  Ends-stop_remains false = Ends-pure tt (λ db h. tt)
  Ends-stop_remains true = Ends-bind _ _ (Ends-attempt_any _) λ outcome. Ends-pure tt (λ db h. tt)

  -- A rollback that has failed fails, and says so truly where it is undone.
  pub Ends-finish_rollback :
      (volumes : List String) (backup : RollbackBackup) (e : AppError)
      → Ends
          (λ db. Unit {0})
          (finish_rollback host paths service snapshot r volumes backup (err e))
          (λ u db. ⊥)
          (IfRestored (IsAsBefore service r))
  unfolding finish_rollback
  Ends-finish_rollback volumes backup e =
      Ends-bind _ _ (Ends-load_service host {P = λ db. Unit {0}} service) λ current.
        Ends-bind _ _ (Ends-before _ (λ db h. tt) (Ends-stop_remains _)) λ u.
          Ends-bind _ _ (Ends-attempted _ (Gives-recover host paths service r volumes backup))
            λ recovery.
              Ends-bind _ _ (Ends-ignore host _)
                λ v. Ends-bind _ _ (Ends-open_db host) λ w. Ends-report _ e recovery
