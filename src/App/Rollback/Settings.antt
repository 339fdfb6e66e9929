-- ===== src/App/Rollback/Settings.antt =====
-- The columns of a service's row that a deployment sets and a start or a stop leaves alone.
use mathlib.Core.Option
use megaserver.Common.{
  ℕ, ◌+◌, String, ◌≡◌, refl, Bool, true, false, Option, none, some, ◌==◌, eq_refl, if◌then◌else◌,
}
use megaserver.Rows.{Stamp, upserted}
use megaserver.Model.{ServiceRecord}
use megaserver.State.{Db}
use megaserver.State.Services.{
  ServiceUpsert, service_by_name, upsert_service, update_service_status, with_status, new_service,
  updated_service,
}
use megaserver.State.Sandboxes.{upsert_sandbox}
use megaserver.State.Resources.{emit_event, upsert_volume}
use megaserver.State.Lookups.{service_by_name-update_service_status, service_by_name-upsert_service}
use megaserver.App.Constraints.OfService.{IsStableFor}

abbrev pub HasSettings : ServiceUpsert → Option ServiceRecord → Type 0
HasSettings u none = ⊥
HasSettings u (some r) =
    (r.app_path ≡ u.app_path)
    × (r.manifest_json ≡ u.manifest_json)
    × (r.plan_json ≡ u.plan_json)
    × (r.port ≡ u.port)
    × (r.health_path ≡ u.health_path)

abbrev pub IsSetAs : ServiceUpsert → Db → Type 0
IsSetAs u db = HasSettings u (service_by_name db u.service_name)

HasSettings-with_status :
    (u : ServiceUpsert) (st : Stamp) (status : String) (pid : Option ℕ) (o : Option ServiceRecord)
    → HasSettings u o
    → HasSettings u (Option.map (with_status st status pid) o)
HasSettings-with_status u st status pid none h = h
HasSettings-with_status u st status pid (some r) h = h

HasSettings-upserted :
    (u : ServiceUpsert) (st : Stamp) (o : Option ServiceRecord) (n : ℕ)
    → HasSettings u (some (upserted o (new_service st u n) (updated_service st u)))
HasSettings-upserted u st none n = (refl, refl, refl, refl, refl)
HasSettings-upserted u st (some r) n = (refl, refl, refl, refl, refl)

-- An upsert of the row sets them.
pub upsert_service-IsSetAs :
    (u : ServiceUpsert) (st : Stamp) (db : Db) → IsSetAs u (upsert_service st u db)
upsert_service-IsSetAs u st db =
    rw (service_by_name-upsert_service, eq_refl)
      (HasSettings-upserted u st (service_by_name db u.service_name) (db.services.seq + 1))

pub IsSetAs-update_service_status :
    (u : ServiceUpsert) (st : Stamp) (name status : String) (pid : Option ℕ) (db : Db)
    → IsSetAs u db
    → IsSetAs u (update_service_status st name status pid db)
IsSetAs-update_service_status u st name status pid db h =
    rw service_by_name-update_service_status (marked (name == u.service_name))
  where
    marked :
        (b : Bool)
        → HasSettings u (
            if b
            then Option.map (with_status st status pid) (service_by_name db u.service_name)
            else service_by_name db u.service_name)
    marked true = HasSettings-with_status u st status pid (service_by_name db u.service_name) h
    marked false = h

-- Starts and stops of whatever service keep them.
pub IsSetAs-IsStableFor : (u : ServiceUpsert) (service : String) → IsStableFor service (IsSetAs u)
unfolding emit_event upsert_sandbox upsert_volume service_by_name
IsSetAs-IsStableFor u service = record {
  event = λ st owner kind details db h. h;
  status = λ st status pid db. IsSetAs-update_service_status u st service status pid db;
  sandbox = λ st s db e h. h;
  volume = λ st name path db h. h;
}
