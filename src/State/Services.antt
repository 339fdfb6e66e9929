-- ===== src/State/Services.antt =====
-- Services, deployments and routes in rust/src/state.rs.
use megaserver.Common.{ℕ, String, Option, none, some, List, [], ◌∷◌}
use megaserver.Rows.{Stamp, text_key, insert, find, update, delete, where_key, upsert}
use megaserver.Rows.Order.{order_by, text_before}
use megaserver.Model.{ServiceRecord, RouteRecord, SandboxRecord, SecretRecord}
use megaserver.State.{Db, DeploymentRow}

abbrev pub service_key : ServiceRecord → String
service_key r = r.name

abbrev pub deployment_service : DeploymentRow → String
deployment_service r = r.service_name

abbrev pub route_service : RouteRecord → String
route_service r = r.service_name

abbrev pub secret_service : SecretRecord → String
secret_service r = r.service_name

abbrev pub sandbox_key : SandboxRecord → String
sandbox_key r = r.service_name

abbrev pub new_deployment : Stamp → String → String → String → ℕ → DeploymentRow
new_deployment stamp service_name manifest_json plan_json id = record {
  id = id;
  service_name = service_name;
  manifest_json = manifest_json;
  plan_json = plan_json;
  created_at = stamp.now;
}

unfoldable pub insert_deployment : Stamp → String → String → String → Db → Db
insert_deployment stamp service_name manifest_json plan_json db = record db {
  deployments = insert (new_deployment stamp service_name manifest_json plan_json) db.deployments;
}

-- The values of one INSERT INTO services.
pub record ServiceUpsert : Type 0 where
  pub service_name : String
  pub status : String
  pub app_path : String
  pub manifest_json : String
  pub plan_json : String
  pub port : Option ℕ
  pub health_path : Option String

abbrev pub new_service : Stamp → ServiceUpsert → ℕ → ServiceRecord
new_service stamp s id = record {
  id = id;
  name = s.service_name;
  status = s.status;
  app_path = s.app_path;
  manifest_json = s.manifest_json;
  plan_json = s.plan_json;
  pid = none;
  port = s.port;
  health_path = s.health_path;
  created_at = stamp.now;
  updated_at = stamp.now;
}

-- DO UPDATE SET names neither `pid` nor `created_at`.
abbrev pub updated_service : Stamp → ServiceUpsert → ServiceRecord → ServiceRecord
updated_service stamp s r = record r {
  status = s.status;
  app_path = s.app_path;
  manifest_json = s.manifest_json;
  plan_json = s.plan_json;
  port = s.port;
  health_path = s.health_path;
  updated_at = stamp.now;
}

unfoldable pub upsert_service : Stamp → ServiceUpsert → Db → Db
upsert_service stamp s db = record db {
  services =
      upsert service_key stamp s.service_name (new_service stamp s) (updated_service stamp s)
        db.services;
}

unfoldable pub service_by_name : Db → String → Option ServiceRecord
service_by_name db service_name = find service_key service_name db.services.rows

unfoldable pub list_services : Db → List ServiceRecord
list_services db = order_by (text_before service_key) db.services.rows

abbrev pub with_status : Stamp → String → Option ℕ → ServiceRecord → ServiceRecord
with_status stamp status pid r = record r { status = status; pid = pid; updated_at = stamp.now }

unfoldable pub update_service_status : Stamp → String → String → Option ℕ → Db → Db
update_service_status stamp service_name status pid db = record db {
  services = record db.services {
    rows = update service_key service_name (with_status stamp status pid) db.services.rows;
  };
}

-- The five DELETE statements of `delete_service`, in order.
abbrev pub delete_deployments : String → Db → Db
delete_deployments name db = record db {
  deployments = record db.deployments { rows = delete deployment_service name db.deployments.rows };
}

abbrev pub delete_routes : String → Db → Db
delete_routes name db = record db {
  routes = record db.routes { rows = delete route_service name db.routes.rows };
}

abbrev pub delete_secrets : String → Db → Db
delete_secrets name db = record db {
  secrets = record db.secrets { rows = delete secret_service name db.secrets.rows };
}

unfoldable pub delete_sandbox : String → Db → Db
delete_sandbox name db = record db {
  sandboxes = record db.sandboxes { rows = delete sandbox_key name db.sandboxes.rows };
}

abbrev pub delete_service_row : String → Db → Db
delete_service_row name db = record db {
  services = record db.services { rows = delete service_key name db.services.rows };
}

abbrev pub delete_service_statements : List (String → Db → Db)
delete_service_statements =
    delete_deployments ∷ delete_routes ∷ delete_secrets ∷ delete_sandbox ∷ delete_service_row ∷ []

-- A `for` loop over statements, with every one of them running.
unfoldable pub run_statements : List (String → Db → Db) → String → Db → Db
run_statements [] name db = db
run_statements (sql ∷ rest) name db = run_statements rest name (sql name db)

unfoldable pub delete_service : String → Db → Db
unfolding run_statements delete_sandbox
delete_service service_name db = run_statements delete_service_statements service_name db

abbrev pub new_route : Stamp → String → String → Option ℕ → ℕ → RouteRecord
new_route stamp service_name domain port id = record {
  id = id;
  service_name = service_name;
  domain = domain;
  port = port;
  created_at = stamp.now;
}

unfoldable pub put_route : Stamp → String → String → Option ℕ → Db → Db
put_route stamp service_name domain port db = record db {
  routes = insert (new_route stamp service_name domain port) db.routes;
}

abbrev pub route_domain : RouteRecord → String
route_domain r = r.domain

unfoldable pub list_routes : Db → Option String → List RouteRecord
list_routes db none = order_by (text_before route_domain) db.routes.rows
list_routes db (some service_name) =
    order_by (text_before route_domain) (where_key route_service service_name db.routes.rows)
