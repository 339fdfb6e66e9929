-- ===== src/Host.antt =====
-- What the program calls and does not implement: the operating system and the crates. Each call takes the
-- state of the world and returns its answer with the new state; nothing is assumed of the answers. The
-- functions of rust/src/sandbox.rs that prepare, start and clean up a sandbox, the Fzy planner behind
-- rust/src/planner.rs and the sidecar process of rust/src/dns.rs are calls too: they do not touch the database.
pub mod Database
pub mod Files
pub mod Processes
use megaserver.Common.{ℕ, String, Bool, Option, List}
use megaserver.Rows.{Stamp}
use megaserver.Ipv4.{Ipv4}
use megaserver.Json.{Json}
use megaserver.Model.{ServiceRecord}
use megaserver.Manifest.{ServiceManifest, NetworkPolicySection}
use megaserver.Exec.{AppError}

-- The two signals that the program sends.
pub data Signal : Type 0 where
  sigterm sigkill : Signal

-- `SpawnedService` of rust/src/runtime.rs.
pub record SpawnedService : Type 0 where
  pub pid : ℕ
  pub stdout_log : String
  pub stderr_log : String
  pub runtime_kind : String
  pub isolation_mode : String
  pub cgroup_path : Option String

-- `SandboxLaunchMetadata` of rust/src/sandbox.rs.
pub record SandboxLaunchMetadata : Type 0 where
  pub service_name : Option String
  pub runtime_kind : String
  pub isolation_mode : String
  pub cgroup_path : Option String

-- `SandboxNetworkPolicyBinding` of rust/src/network.rs.
pub record SandboxNetworkPolicyBinding : Type 0 where
  pub service_name : String
  pub sandbox_ip : String
  pub policy : NetworkPolicySection

-- The arguments of `spawn_service` beside the paths.
pub record SpawnRequest : Type 0 where
  pub service_name : String
  pub app_path : String
  pub manifest : ServiceManifest
  pub secret_env : List (String × String)
  pub volume_env : List (String × String)
  pub volume_mounts : List (String × String)
  pub sandbox_env : List (String × String)

pub record Host : Type 1 where
  pub World : Type 0
  -- Does the database engine refuse the next open, query or statement?
  pub refuses : World → Bool × World
  -- The clock and the row ids that a statement uses up.
  pub stamp : World → Stamp × World
  -- The seconds since the epoch, or 0 before it.
  pub epoch_seconds : World → ℕ × World
  pub now_string : World → String × World
  -- The nanoseconds since the epoch, or 0 before it.
  pub nanos : World → ℕ × World
  -- `kill(pid, None).is_ok()` and `kill(pid, signal).is_ok()`.
  pub alive : ℕ → World → Bool × World
  pub signal : ℕ → Signal → World → Bool × World
  -- How many times a polling loop finds that its deadline, so many milliseconds ahead, has not passed.
  pub rounds : ℕ → World → ℕ × World
  -- The status of an HTTP response, or nothing on a transport or status error.
  pub http_get : String → World → Option ℕ × World
  pub exists : String → World → Bool × World
  pub canonicalize : String → World → Option String × World
  pub read_to_string : String → World → Option String × World
  pub write_file : String → String → World → Bool × World
  pub create_dir_all : String → World → Bool × World
  pub remove_dir_all : String → World → Bool × World
  pub copy_tree : String → String → World → Bool × World
  -- `serde_yaml`, `serde_json` and `ipnet`.
  pub parse_yaml : String → Option ServiceManifest
  pub decode_manifest : String → Option ServiceManifest
  pub encode_manifest : ServiceManifest → Option String
  pub encode_service : ServiceRecord → Option String
  pub encode_json : Json → Option String
  pub show_json : Json → String
  pub parse_json : String → Option Json
  -- `to_string()` of an error: the wording, which the errors of the model leave out.
  pub error_text : AppError → String
  -- HMAC-SHA256 in hexadecimal, and `form_urlencoded`.
  pub hmac : String → String → Option String
  pub parse_form : String → List (String × String)
  pub write_form : List (String × String) → String
  pub is_net : String → Bool
  pub subnet_hosts : List Ipv4
  -- rust/src/planner.rs, rust/src/sandbox.rs, rust/src/network.rs and rust/src/dns.rs.
  pub plan : ServiceManifest → World → Option Json × World
  pub isolation_supported : World → Bool × World
  pub spawn : SpawnRequest → World → Option SpawnedService × World
  pub cleanup : SandboxLaunchMetadata → World → Bool × World
  pub refresh_policies : List SandboxNetworkPolicyBinding → World → Bool × World
  pub ensure_dns : World → Bool × World
  pub read_dns_pid : World → Option (Option ℕ) × World
  pub remove_dns_pid : World → Bool × World
