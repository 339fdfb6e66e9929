-- ===== src/State/Projects.antt =====
-- Projects and deployment releases in rust/src/state.rs.
use megaserver.Common.{ℕ, String, Option, none, some, List, select, ◌==◌, ◌&&◌}
use megaserver.Rows.{Stamp, text_key, insert, find, upsert}
use megaserver.Rows.Order.{order_by, text_before, newest_first}
use megaserver.Model.{ProjectRecord, DeploymentRecord}
use megaserver.State.{Db}

abbrev pub project_key : ProjectRecord → String
project_key r = r.name

-- The values of one INSERT INTO projects.
pub record ProjectUpsert : Type 0 where
  pub name : String
  pub service_name : String
  pub source_kind : String
  pub source_ref : String
  pub app_path : String
  pub manifest_json : String

abbrev pub new_project : Stamp → ProjectUpsert → ℕ → ProjectRecord
new_project stamp p id = record {
  id = id;
  name = p.name;
  service_name = p.service_name;
  source_kind = p.source_kind;
  source_ref = p.source_ref;
  app_path = p.app_path;
  manifest_json = p.manifest_json;
  created_at = stamp.now;
  updated_at = stamp.now;
}

abbrev pub updated_project : Stamp → ProjectUpsert → ProjectRecord → ProjectRecord
updated_project stamp p r = record r {
  service_name = p.service_name;
  source_kind = p.source_kind;
  source_ref = p.source_ref;
  app_path = p.app_path;
  manifest_json = p.manifest_json;
  updated_at = stamp.now;
}

unfoldable pub upsert_project : Stamp → ProjectUpsert → Db → Db
upsert_project stamp p db = record db {
  projects =
      upsert project_key stamp p.name (new_project stamp p) (updated_project stamp p) db.projects;
}

unfoldable pub project_by_name : Db → String → Option ProjectRecord
project_by_name db name = find project_key name db.projects.rows

unfoldable pub list_projects : Db → List ProjectRecord
list_projects db = order_by (text_before project_key) db.projects.rows

-- The values of one INSERT INTO deployment_releases.
pub record ReleaseInsert : Type 0 where
  pub project_name : String
  pub service_name : String
  pub app_path : String
  pub manifest_json : String
  pub plan_json : String
  pub source_kind : String
  pub source_ref : String

abbrev pub new_release : Stamp → ReleaseInsert → ℕ → DeploymentRecord
new_release stamp r id = record {
  id = id;
  project_name = r.project_name;
  service_name = r.service_name;
  app_path = r.app_path;
  manifest_json = r.manifest_json;
  plan_json = r.plan_json;
  source_kind = r.source_kind;
  source_ref = r.source_ref;
  created_at = stamp.now;
}

unfoldable pub insert_deployment_release : Stamp → ReleaseInsert → Db → Db
insert_deployment_release stamp r db = record db {
  deployment_releases = insert (new_release stamp r) db.deployment_releases;
}

abbrev pub release_id : DeploymentRecord → ℕ
release_id r = r.id

unfoldable pub list_deployment_releases : Db → Option String → Option String → List DeploymentRecord
list_deployment_releases db (some project) (some service) = order_by (newest_first release_id) (
    select (λ (r : DeploymentRecord). r.project_name == project && r.service_name == service)
      db.deployment_releases.rows)
list_deployment_releases db (some project) none =
    order_by (newest_first release_id)
      (select (λ (r : DeploymentRecord). r.project_name == project) db.deployment_releases.rows)
list_deployment_releases db none (some service) =
    order_by (newest_first release_id)
      (select (λ (r : DeploymentRecord). r.service_name == service) db.deployment_releases.rows)
list_deployment_releases db none none =
    order_by (newest_first release_id) db.deployment_releases.rows
