-- ===== src/App/Resources.antt =====
-- `expose_value`, `create_volume_value`, `set_secret_only` and `snapshot_value` of rust/src/app.rs.
use megaserver.Common.{ℕ, String, Option, none, some, List, [], ◌∷◌}
use megaserver.Common.Texts.{concat}
use megaserver.Result.{or_error}
use megaserver.Paths.{StatePaths, join, service_runtime_dir}
use megaserver.Json.{Json, object, str, opt_num}
use megaserver.Model.{ServiceRecord, VolumeRecord}
use megaserver.Manifest.{ServiceManifest}
use megaserver.State.Services.{service_by_name, put_route}
use megaserver.State.Resources.{set_secret, insert_snapshot}
use megaserver.Exec.{
  io, unknown_service, duplicate_snapshot, M, pure, ◌>>=◌, ◌>>◌, try_write, call, lift,
}
use megaserver.Host.{Host}
use megaserver.Host.Database.{open_db, query, exec, emit}
use megaserver.Host.Files.{must}
use megaserver.App.Support.{ensure_volume, load_service, manifest_from_record}

-- `port.or(record.port)`
abbrev pub or_port : Option ℕ → Option ℕ → Option ℕ
or_port none other = other
or_port (some port) other = some port

module _ (host : Host) where
  open host use {
    World, stamp, now_string, create_dir_all, write_file, copy_tree, encode_service,
    encode_manifest,
  }

  unfoldable pub expose_value : String → String → Option ℕ → M World Json
  expose_value service domain port = do
    open_db host
    found ← query host (λ db. service_by_name db service)
    r ← lift (or_error found (unknown_service service))
    exec host (λ st. put_route st service domain (or_port port r.port))
    emit host (some service) "route.created"
        (object (("domain", str domain) ∷ ("port", opt_num (or_port port r.port)) ∷ []))
    pure (
        object (
          ("status", str "ok")
          ∷ ("service", str service)
          ∷ ("domain", str domain)
          ∷ ("port", opt_num (or_port port r.port))
          ∷ []))

  unfoldable pub set_secret_only : String → String → String → M World (Unit {0})
  set_secret_only service key value = do
    open_db host
    exec host (λ st. set_secret st service key value)
    emit host (some service) "secret.set" (object (("key", str key) ∷ []))

  -- `state::insert_snapshot`, which violates UNIQUE(snapshot_name) where the name is there already.
  unfoldable pub exec_snapshot : String → String → String → M World (Unit {0})
  exec_snapshot service name path = do
    open_db host
    st ← call stamp
    try_write (insert_snapshot st service name path) (duplicate_snapshot name)

  module _ (paths : StatePaths) where
    unfoldable pub create_volume_value : String → Option String → M World VolumeRecord
    create_volume_value name service = do
      open_db host
      volume ← ensure_volume host paths service name
      emit host service "volume.created"
          (object (("name", str name) ∷ ("host_path", str volume.host_path) ∷ []))
      pure volume

    unfoldable pub copy_volumes : String → List String → M World (Unit {0})
    copy_volumes target [] = pure tt
    copy_volumes target (volume ∷ volumes) = do
      must "copy volume" (copy_tree (join paths.volumes_dir volume) (join target volume))
      copy_volumes target volumes

    -- The files of a snapshot.
    unfoldable pub write_snapshot :
        String → ServiceRecord → ServiceManifest → String → M World (Unit {0})
    unfolding copy_volumes
    write_snapshot service found manifest dir = do
      must "create snapshot directory" (create_dir_all dir)
      service_json ← lift (or_error (encode_service found) (io "service json"))
      must "write service.json" (write_file (join dir "service.json") service_json)
      manifest_json ← lift (or_error (encode_manifest manifest) (io "manifest json"))
      must "write manifest.json" (write_file (join dir "manifest.json") manifest_json)
      must "copy runtime" (copy_tree (service_runtime_dir paths service) (join dir "runtime"))
      copy_volumes (join dir "volumes") manifest.volumes

    unfoldable pub snapshot_value : String → M World Json
    unfolding write_snapshot exec_snapshot
    snapshot_value service = do
      found ← load_service host service
      manifest ← manifest_from_record host found
      now ← call now_string
      let name = concat (service ∷ "-" ∷ now ∷ [])
      let dir = join paths.snapshots_dir name
      write_snapshot service found manifest dir
      open_db host
      exec_snapshot service name dir
      emit host (some service) "snapshot.created"
          (object (("snapshot", str name) ∷ ("path", str dir) ∷ []))
      pure (object (("status", str "ok") ∷ ("snapshot", str name) ∷ []))
