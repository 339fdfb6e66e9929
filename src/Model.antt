-- ===== src/Model.antt =====
-- The records of rust/src/model.rs, one for each row that a query returns. Row ids, ports and
-- process ids are natural numbers; times are the texts that `now_string` writes.
use megaserver.Common.{ℕ, String, Option}

pub record ServiceRecord : Type 0 where
  pub id : ℕ
  pub name : String
  pub status : String
  pub app_path : String
  pub manifest_json : String
  pub plan_json : String
  pub pid : Option ℕ
  pub port : Option ℕ
  pub health_path : Option String
  pub created_at : String
  pub updated_at : String

pub record ProjectRecord : Type 0 where
  pub id : ℕ
  pub name : String
  pub service_name : String
  pub source_kind : String
  pub source_ref : String
  pub app_path : String
  pub manifest_json : String
  pub created_at : String
  pub updated_at : String

pub record DeploymentRecord : Type 0 where
  pub id : ℕ
  pub project_name : String
  pub service_name : String
  pub app_path : String
  pub manifest_json : String
  pub plan_json : String
  pub source_kind : String
  pub source_ref : String
  pub created_at : String

pub record VolumeRecord : Type 0 where
  pub id : ℕ
  pub service_name : Option String
  pub name : String
  pub host_path : String
  pub created_at : String

pub record RouteRecord : Type 0 where
  pub id : ℕ
  pub service_name : String
  pub domain : String
  pub port : Option ℕ
  pub created_at : String

pub record SecretRecord : Type 0 where
  pub id : ℕ
  pub service_name : String
  pub key : String
  pub value : String
  pub created_at : String

pub record SnapshotRecord : Type 0 where
  pub id : ℕ
  pub service_name : String
  pub snapshot_name : String
  pub snapshot_path : String
  pub created_at : String

pub record SandboxRecord : Type 0 where
  pub id : ℕ
  pub service_name : String
  pub sandbox_id : String
  pub hostname : String
  pub ip_address : Option String
  pub runtime_kind : String
  pub isolation_mode : String
  pub status : String
  pub pid : Option ℕ
  pub cgroup_path : Option String
  pub created_at : String
  pub updated_at : String

pub record EventRecord : Type 0 where
  pub id : ℕ
  pub service_name : Option String
  pub kind : String
  pub details_json : String
  pub created_at : String
