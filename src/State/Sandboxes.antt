-- ===== src/State/Sandboxes.antt =====
-- Sandbox rows in rust/src/state.rs.
use megaserver.Common.{ℕ, String, Option, List}
use megaserver.Rows.{Stamp, text_key, find, upsert}
use megaserver.Rows.Order.{order_by, text_before}
use megaserver.Model.{SandboxRecord}
use megaserver.State.{Db}
use megaserver.State.Services.{sandbox_key}

pub record SandboxUpsert : Type 0 where
  pub service_name : String
  pub sandbox_id : String
  pub hostname : String
  pub ip_address : Option String
  pub runtime_kind : String
  pub isolation_mode : String
  pub status : String
  pub pid : Option ℕ
  pub cgroup_path : Option String

abbrev pub new_sandbox : Stamp → SandboxUpsert → ℕ → SandboxRecord
new_sandbox stamp s id = record {
  id = id;
  service_name = s.service_name;
  sandbox_id = s.sandbox_id;
  hostname = s.hostname;
  ip_address = s.ip_address;
  runtime_kind = s.runtime_kind;
  isolation_mode = s.isolation_mode;
  status = s.status;
  pid = s.pid;
  cgroup_path = s.cgroup_path;
  created_at = stamp.now;
  updated_at = stamp.now;
}

abbrev pub updated_sandbox : Stamp → SandboxUpsert → SandboxRecord → SandboxRecord
updated_sandbox stamp s r = record r {
  sandbox_id = s.sandbox_id;
  hostname = s.hostname;
  ip_address = s.ip_address;
  runtime_kind = s.runtime_kind;
  isolation_mode = s.isolation_mode;
  status = s.status;
  pid = s.pid;
  cgroup_path = s.cgroup_path;
  updated_at = stamp.now;
}

unfoldable pub upsert_sandbox : Stamp → SandboxUpsert → Db → Db
upsert_sandbox stamp s db = record db {
  sandboxes =
      upsert sandbox_key stamp s.service_name (new_sandbox stamp s) (updated_sandbox stamp s)
        db.sandboxes;
}

unfoldable pub sandbox_by_service : Db → String → Option SandboxRecord
sandbox_by_service db service_name = find sandbox_key service_name db.sandboxes.rows

unfoldable pub list_sandboxes : Db → List SandboxRecord
list_sandboxes db = order_by (text_before sandbox_key) db.sandboxes.rows
