-- ===== src/App/Projects.antt =====
-- `import_project_value` and `deploy_project_value` of rust/src/projects.rs.
pub mod Names
use megaserver.Common.{
  String, Bool, true, false, ◌&&◌, ◌||◌, Option, none, some, List, [], ◌∷◌, ◌==◌, all, leb, nat_eq,
  if◌then◌else◌,
}
use megaserver.App.Projects.Names.{sanitize_project_name}
use megaserver.Result.{or_error}
use megaserver.Paths.{StatePaths, join}
use megaserver.Model.{ProjectRecord}
use megaserver.Manifest.{ServiceManifest}
use megaserver.Manifest.Load.{load_manifest}
use megaserver.State.Projects.{
  ProjectUpsert, ReleaseInsert, upsert_project, project_by_name, insert_deployment_release,
}
use megaserver.Exec.{
  AppError, io, empty_project_name, bad_project_name, unknown_project, M, pure, ◌>>=◌, ◌>>◌, call,
  lift,
}
use megaserver.Host.{Host}
use megaserver.Host.Database.{open_db, query, exec}
use megaserver.Host.Files.{must, must_give}
use megaserver.App.Deploy.{deploy_only, deploy_and_start_only}
use megaserver.App.Inspect.{Inspection, inspect_value}

abbrev pub name_or : Option String → String → String
name_or none given = given
name_or (some name) given = name

module _ (host : Host) (paths : StatePaths) where
  open host use {World, now_string, create_dir_all, copy_tree, canonicalize, encode_manifest}

  abbrev pub staged_app : String → String → String
  staged_app project now = join (join (join (join paths.projects_dir project) "releases") now) "app"

  abbrev staged_project :
      String → ServiceManifest → String → String → String → String → ProjectUpsert
  staged_project project manifest kind ref app_root manifest_json = record {
    name = project;
    service_name = manifest.name;
    source_kind = kind;
    source_ref = ref;
    app_path = app_root;
    manifest_json = manifest_json;
  }

  unfoldable pub stage_project_tree :
      Option String → String → String → String → M World ProjectRecord
  stage_project_tree project_name kind ref source_root = do
    manifest ← load_manifest host source_root
    project ← lift (sanitize_project_name (name_or project_name manifest.name))
    now ← call now_string
    must "create staged project root" (create_dir_all (staged_app project now))
    must "copy project" (copy_tree source_root (staged_app project now))
    manifest_json ← lift (or_error (encode_manifest manifest) (io "manifest json"))
    open_db host
    exec host (λ st.
        upsert_project st
          (staged_project project manifest kind ref (staged_app project now) manifest_json))
    found ← query host (λ db. project_by_name db project)
    lift (or_error found (io "project missing after upsert"))

  unfoldable pub import_project_value : String → Option String → M World ProjectRecord
  unfolding stage_project_tree
  import_project_value given project_name = do
    source_path ← must_give "canonicalize" (canonicalize given)
    stage_project_tree project_name "path" source_path source_path

  -- The service that is deployed, and started where that is asked for.
  unfoldable pub deploy_app : String → Bool → M World String
  deploy_app app_path true = deploy_and_start_only host paths app_path
  deploy_app app_path false = do
    deploy_only host paths app_path
    manifest ← load_manifest host app_path
    pure manifest.name

  abbrev release_of : ProjectRecord → String → Inspection → ReleaseInsert
  release_of project service deployed = record {
    project_name = project.name;
    service_name = service;
    app_path = project.app_path;
    manifest_json = deployed.service.manifest_json;
    plan_json = deployed.service.plan_json;
    source_kind = project.source_kind;
    source_ref = project.source_ref;
  }

  unfoldable pub deploy_project_value : String → Bool → M World Inspection
  unfolding deploy_app
  deploy_project_value project_name start = do
    open_db host
    found ← query host (λ db. project_by_name db project_name)
    project ← lift (or_error found (unknown_project project_name))
    service ← deploy_app project.app_path start
    deployed ← inspect_value host service
    open_db host
    exec host (λ st. insert_deployment_release st (release_of project service deployed))
    pure deployed
