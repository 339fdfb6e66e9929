-- ===== src/State.antt =====
-- The control-plane database of rust/src/state.rs: the schema that `init` creates, and the modules
-- of its statements. A statement that the engine itself refuses is a matter of the callers: here
-- each function is what the statement does when it runs.
pub mod Services
pub mod Sandboxes
pub mod Resources
pub mod Projects
pub mod WellFormed
pub mod Lookups
pub mod Upserts
pub mod Deletion
pub mod Listing
pub mod Ips
use megaserver.Common.{ℕ, String}
use megaserver.Rows.{Table, empty_table}
use megaserver.Model.{
  ServiceRecord, ProjectRecord, DeploymentRecord, VolumeRecord, RouteRecord, SecretRecord,
  SnapshotRecord, SandboxRecord, EventRecord,
}

-- A row of the table `deployments`, which no query reads.
pub record DeploymentRow : Type 0 where
  pub id : ℕ
  pub service_name : String
  pub manifest_json : String
  pub plan_json : String
  pub created_at : String

-- The ten tables.
pub record Db : Type 0 where
  pub services : Table ServiceRecord
  pub deployments : Table DeploymentRow
  pub projects : Table ProjectRecord
  pub deployment_releases : Table DeploymentRecord
  pub routes : Table RouteRecord
  pub volumes : Table VolumeRecord
  pub secrets : Table SecretRecord
  pub snapshots : Table SnapshotRecord
  pub events : Table EventRecord
  pub sandboxes : Table SandboxRecord

-- CREATE TABLE IF NOT EXISTS, in a new file.
abbrev pub empty_db : Db
empty_db = record {
  services = empty_table;
  deployments = empty_table;
  projects = empty_table;
  deployment_releases = empty_table;
  routes = empty_table;
  volumes = empty_table;
  secrets = empty_table;
  snapshots = empty_table;
  events = empty_table;
  sandboxes = empty_table;
}
