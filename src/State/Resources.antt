-- ===== src/State/Resources.antt =====
-- Volumes, secrets, snapshots and events in rust/src/state.rs.
use Prim.Native.String.{compare, then}
use text.Mathlib.Text.{is_le}
use mathlib.Core.Option
use megaserver.Common.{ℕ, String, Bool, Option, none, some, List, select, take, ◌==◌, if◌then◌else◌}
use megaserver.Rows.{Stamp, text_key, pair_key, insert, find, where_key, upsert, is_some}
use megaserver.Rows.Order.{order_by, text_before, newest_first}
use megaserver.Model.{VolumeRecord, SecretRecord, SnapshotRecord, EventRecord}
use megaserver.State.{Db}
use megaserver.State.Services.{secret_service}

abbrev pub volume_key : VolumeRecord → String
volume_key r = r.name

-- COALESCE(excluded.service_name, service_name)
abbrev pub coalesce : Option String → Option String → Option String
coalesce none old = old
coalesce (some new) old = some new

abbrev pub new_volume : Stamp → Option String → String → String → ℕ → VolumeRecord
new_volume stamp service_name name host_path id = record {
  id = id;
  service_name = service_name;
  name = name;
  host_path = host_path;
  created_at = stamp.now;
}

abbrev pub updated_volume : Option String → String → VolumeRecord → VolumeRecord
updated_volume service_name host_path r = record r {
  service_name = coalesce service_name r.service_name;
  host_path = host_path;
}

unfoldable pub upsert_volume : Stamp → Option String → String → String → Db → Db
upsert_volume stamp service_name name host_path db = record db {
  volumes =
      upsert volume_key stamp name (new_volume stamp service_name name host_path)
        (updated_volume service_name host_path) db.volumes;
}

unfoldable pub volume_by_name : Db → String → Option VolumeRecord
volume_by_name db volume_name = find volume_key volume_name db.volumes.rows

unfoldable pub list_volumes : Db → List VolumeRecord
list_volumes db = order_by (text_before volume_key) db.volumes.rows

-- UNIQUE(service_name, key)
abbrev pub secret_key : SecretRecord → String × String
secret_key r = (r.service_name, r.key)

abbrev pub new_secret : Stamp → String → String → String → ℕ → SecretRecord
new_secret stamp service_name key value id = record {
  id = id;
  service_name = service_name;
  key = key;
  value = value;
  created_at = stamp.now;
}

abbrev pub updated_secret : String → SecretRecord → SecretRecord
updated_secret value r = record r { value = value }

unfoldable pub set_secret : Stamp → String → String → String → Db → Db
set_secret stamp service_name key value db = record db {
  secrets =
      upsert secret_key stamp (service_name, key) (new_secret stamp service_name key value)
        (updated_secret value) db.secrets;
}

abbrev pub secret_name : SecretRecord → String
secret_name r = r.key

-- ORDER BY service_name, key
abbrev pub secret_before : SecretRecord → SecretRecord → Bool
secret_before a b = is_le ((then) (compare a.service_name b.service_name) (compare a.key b.key))

unfoldable pub list_secrets : Db → Option String → List SecretRecord
list_secrets db none = order_by secret_before db.secrets.rows
list_secrets db (some service_name) =
    order_by (text_before secret_name) (where_key secret_service service_name db.secrets.rows)

unfoldable pub secret_value : Db → String → String → Option String
secret_value db service_name key =
    Option.map (λ (r : SecretRecord). r.value) (find secret_key (service_name, key) db.secrets.rows)

abbrev pub snapshot_key : SnapshotRecord → String
snapshot_key r = r.snapshot_name

abbrev pub new_snapshot : Stamp → String → String → String → ℕ → SnapshotRecord
new_snapshot stamp service_name snapshot_name snapshot_path id = record {
  id = id;
  service_name = service_name;
  snapshot_name = snapshot_name;
  snapshot_path = snapshot_path;
  created_at = stamp.now;
}

-- `none` is the violation of UNIQUE(snapshot_name).
unfoldable pub insert_snapshot : Stamp → String → String → String → Db → Option Db
insert_snapshot stamp service_name snapshot_name snapshot_path db =
    if is_some (find snapshot_key snapshot_name db.snapshots.rows)
    then none
    else some (record db {
      snapshots = insert (new_snapshot stamp service_name snapshot_name snapshot_path) db.snapshots;
    })

unfoldable pub snapshot_by_name : Db → String → Option SnapshotRecord
snapshot_by_name db snapshot_name = find snapshot_key snapshot_name db.snapshots.rows

abbrev pub new_event : Stamp → Option String → String → String → ℕ → EventRecord
new_event stamp service_name kind details_json id = record {
  id = id;
  service_name = service_name;
  kind = kind;
  details_json = details_json;
  created_at = stamp.now;
}

-- `details_json` is the text of the event's JSON details.
unfoldable pub emit_event : Stamp → Option String → String → String → Db → Db
emit_event stamp service_name kind details_json db = record db {
  events = insert (new_event stamp service_name kind details_json) db.events;
}

abbrev pub event_id : EventRecord → ℕ
event_id r = r.id

-- WHERE service_name = ?1, where NULL equals nothing.
abbrev pub event_of : String → EventRecord → Bool
event_of service_name r = elim r.service_name [ none ↦ Bool.false | some s ↦ s == service_name ]

unfoldable pub list_events : Db → Option String → List EventRecord
list_events db none = take 100 (order_by (newest_first event_id) db.events.rows)
list_events db (some service_name) =
    take 100 (order_by (newest_first event_id) (select (event_of service_name) db.events.rows))
