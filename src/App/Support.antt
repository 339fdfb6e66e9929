-- ===== src/App/Support.antt =====
-- The helpers that the operations of rust/src/app.rs share.
use Prim.Native.Char.{Char, code}
use Prim.Native.String
use megaserver.Common.{
  ℕ, ◌-◌, String, Option, none, some, List, [], ◌∷◌, ◌++◌, map, leb, nat_eq, get_elem?,
  if◌then◌else◌, ◌==◌, ◌&&◌,
}
use megaserver.Common.Texts.{concat, decimal}
use megaserver.Result.{Result, ok, err, or_error}
use megaserver.Paths.{StatePaths, join, service_runtime_dir}
use megaserver.Model.{ServiceRecord, SandboxRecord, VolumeRecord, SecretRecord}
use megaserver.Manifest.{ServiceManifest}
use megaserver.State.Services.{service_by_name}
use megaserver.State.Sandboxes.{list_sandboxes}
use megaserver.State.Resources.{list_secrets, upsert_volume, volume_by_name}
use megaserver.State.Ips.{IpResult, allocated, bad_stored_ip, exhausted, allocate_sandbox_ip}
use megaserver.Exec.{
  AppError, io, bad_manifest_json, unknown_service, no_available_ips, M, pure, ◌>>=◌, ◌>>◌, call,
  lift,
}
use megaserver.Host.{Host, SandboxLaunchMetadata}
use megaserver.Host.Database.{open_db, query, exec}
use megaserver.Host.Files.{must}

abbrev pub gateway : String
gateway = "10.42.0.254"

-- `sandbox_app_runtime_path` on Linux.
abbrev pub app_runtime_path : String
app_runtime_path = "/srv/app"

abbrev pub sandbox_hostname : String → String
sandbox_hostname service = concat (service ∷ ".sandbox.megaserver" ∷ [])

abbrev pub sandbox_id : String → ℕ → String
sandbox_id service pid = concat (service ∷ "-" ∷ decimal pid ∷ [])

abbrev pub pending_sandbox_id : String → String
pending_sandbox_id service = concat (service ∷ "-pending" ∷ [])

unfoldable pub service_runtime_host : String → Option String → String
service_runtime_host runtime_kind none = "127.0.0.1"
service_runtime_host runtime_kind (some ip) =
    if runtime_kind == "linux-namespace" then ip else "127.0.0.1"

abbrev upper_texts : List String
upper_texts =
    "A" ∷ "B" ∷ "C" ∷ "D" ∷ "E" ∷ "F" ∷ "G" ∷ "H" ∷ "I" ∷ "J" ∷ "K" ∷ "L" ∷ "M" ∷ "N" ∷ "O" ∷ "P"
    ∷ "Q" ∷ "R" ∷ "S" ∷ "T" ∷ "U" ∷ "V" ∷ "W" ∷ "X" ∷ "Y" ∷ "Z" ∷ []

-- One character of `replace('-', "_").to_ascii_uppercase()`.
abbrev env_char : Char → String
env_char c =
    if nat_eq (code c) b'-'
    then "_"
    else if leb b'a' (code c) && leb (code c) b'z'
    then (elim (get_elem? upper_texts (code c - b'a')) [ none ↦ "" | some t ↦ t ])
    else String.◌∷◌ c String.[]

abbrev env_name : String → String
env_name String.[] = ""
env_name (String.◌∷◌ c s) = String.◌++◌ (env_char c) (env_name s)

unfoldable pub volume_env_key : String → String
volume_env_key volume = concat ("MEGASERVER_VOLUME_" ∷ env_name volume ∷ [])

-- Where a volume is mounted in a sandbox.
abbrev pub volume_target : String → String
volume_target volume = join (join (join app_runtime_path ".megaserver") "volumes") volume

-- The private hosts file, without its last newline's separator.
abbrev pub hosts_file : String → String → String → String
hosts_file service hostname ip = concat (
    "127.0.0.1 localhost\n" ∷ gateway ∷ " gateway.megaserver\n" ∷ ip ∷ " " ∷ hostname ∷ " "
    ∷ service ∷ "\n" ∷ [])

abbrev pub launch_metadata : String → SandboxRecord → SandboxLaunchMetadata
launch_metadata service r = record {
  service_name = some service;
  runtime_kind = r.runtime_kind;
  isolation_mode = r.isolation_mode;
  cgroup_path = r.cgroup_path;
}

module _ (host : Host) where
  open host use {
    World, decode_manifest, create_dir_all, write_file, isolation_supported, subnet_hosts, cleanup,
  }

  unfoldable pub manifest_from_record : ServiceRecord → M World ServiceManifest
  manifest_from_record r = lift (or_error (decode_manifest r.manifest_json) bad_manifest_json)

  unfoldable pub load_service : String → M World ServiceRecord
  load_service service = do
    open_db host
    found ← query host (λ db. service_by_name db service)
    lift (or_error found (unknown_service service))

  abbrev pub secret_pair : SecretRecord → String × String
  secret_pair s = (s.key, s.value)

  unfoldable pub service_secret_env : String → M World (List (String × String))
  service_secret_env service = do
    open_db host
    secrets ← query host (λ db. list_secrets db (some service))
    pure (map secret_pair secrets)

  unfoldable pub ip_outcome : String → IpResult → Result AppError String
  ip_outcome service (allocated ip) = ok ip
  ip_outcome service bad_stored_ip = err (AppError.bad_stored_ip service)
  ip_outcome service exhausted = err no_available_ips

  unfoldable pub allocate : String → M World String
  unfolding ip_outcome
  allocate service = do
    found ← query host (λ db. allocate_sandbox_ip subnet_hosts db service)
    lift (ip_outcome service found)

  unfoldable pub sandbox_runtime_env : String → String → String → M World (List (String × String))
  unfolding allocate
  sandbox_runtime_env service sandbox_id_value hostname = do
    ip ← allocate service
    pure (
        ("MEGASERVER_SANDBOX_ID", sandbox_id_value)
        ∷ ("MEGASERVER_SANDBOX_HOSTNAME", hostname)
        ∷ ("MEGASERVER_SANDBOX_IP", ip)
        ∷ ("HOSTNAME", hostname)
        ∷ [])

  module _ (paths : StatePaths) where
    -- `state::ensure_volume`. The source's `expect` on the row just written is a panic where this fails.
    unfoldable pub ensure_volume : Option String → String → M World VolumeRecord
    ensure_volume service volume = do
      must "create volume" (create_dir_all (join paths.volumes_dir volume))
      exec host (λ st. upsert_volume st service volume (join paths.volumes_dir volume))
      found ← query host (λ db. volume_by_name db volume)
      lift (or_error found (io "volume just created"))

    -- The loop of `service_volume_env`; the list so far is in front.
    unfoldable pub volume_env_from :
        String → List (String × String) → List String → M World (List (String × String))
    unfolding ensure_volume
    volume_env_from service vars [] = pure vars
    volume_env_from service vars (volume ∷ volumes) = do
      row ← ensure_volume (some service) volume
      isolated ← call isolation_supported
      volume_env_from service
          (vars
            ++ (volume_env_key volume, if isolated then volume_target volume else row.host_path)
              ∷ [])
          volumes

    unfoldable pub service_volume_env : String → ServiceManifest → M World (List (String × String))
    unfolding volume_env_from
    service_volume_env service manifest = do
      open_db host
      volume_env_from service [] manifest.volumes

    unfoldable pub volume_mounts_from :
        String → List (String × String) → List String → M World (List (String × String))
    unfolding ensure_volume
    volume_mounts_from service mounts [] = pure mounts
    volume_mounts_from service mounts (volume ∷ volumes) = do
      row ← ensure_volume (some service) volume
      volume_mounts_from service (mounts ++ (row.host_path, volume_target volume) ∷ []) volumes

    unfoldable pub service_volume_mounts :
        String → ServiceManifest → M World (List (String × String))
    unfolding volume_mounts_from
    service_volume_mounts service manifest = do
      open_db host
      isolated ← call isolation_supported
      if isolated then volume_mounts_from service [] manifest.volumes else pure []

    unfoldable pub write_private_hosts_file : String → String → String → M World (Unit {0})
    write_private_hosts_file service hostname ip = do
      must "create sandbox directory"
          (create_dir_all (join (service_runtime_dir paths service) "sandbox"))
      must "write hosts" (
          write_file (join (join (service_runtime_dir paths service) "sandbox") "hosts")
            (hosts_file service hostname ip))

    unfoldable pub hosts_of : SandboxRecord → Option String → M World (Unit {0})
    hosts_of r none = pure tt
    hosts_of r (some ip) = write_private_hosts_file r.service_name r.hostname ip

    unfoldable pub write_hosts_for : List SandboxRecord → M World (Unit {0})
    unfolding hosts_of
    write_hosts_for [] = pure tt
    write_hosts_for (r ∷ rs) = do
      if r.status == "stopped" then pure tt else hosts_of r r.ip_address
      write_hosts_for rs

    unfoldable pub refresh_private_hosts : M World (Unit {0})
    unfolding write_hosts_for
    refresh_private_hosts = do rows ← query host list_sandboxes; write_hosts_for rows
