-- ===== src/App/Succeeding.antt =====
-- The calls of rust/src/app.rs return where the host does what it is asked.
pub mod Calls
pub mod Refreshes
pub mod Stops
pub mod Volumes
pub mod Starts
use megaserver.Common.{ℕ, String, false, true, List, ◌≡◌}
use megaserver.Json.{Json}
use megaserver.Host.{Host, Signal, SandboxLaunchMetadata, SandboxNetworkPolicyBinding, SpawnRequest}
use megaserver.Exec.Successes.{IsThere}

-- The database engine refuses nothing, files and directories can be made, signals reach their processes, sandboxes
-- can be cleaned up, the sidecar can be started and its process id read, and values can be written as JSON. Nothing is
-- asked of health checks, of which processes live, of what files say, of the starting of a service's process, or of the
-- setting of firewall rules.
pub record IsCooperative (host : Host) : Type 0 where
  pub accepted : (w : Host.World host) → (Host.refuses host w).0 ≡ false
  pub signalled : (pid : ℕ) (s : Signal) (w : Host.World host) → (Host.signal host pid s w).0 ≡ true
  pub written :
      (path text : String) (w : Host.World host) → (Host.write_file host path text w).0 ≡ true
  pub created : (path : String) (w : Host.World host) → (Host.create_dir_all host path w).0 ≡ true
  pub cleaned : (m : SandboxLaunchMetadata) (w : Host.World host) → (Host.cleanup host m w).0 ≡ true
  pub encoded : (value : Json) → IsThere (Host.encode_json host value)
  pub ensured : (w : Host.World host) → (Host.ensure_dns host w).0 ≡ true
  pub pid_read : (w : Host.World host) → IsThere (Host.read_dns_pid host w).0
