-- ===== src/Tests/Systems.antt =====
-- A host that does whatever it is asked, and databases with one service.
use megaserver.Common.{ℕ, String, Bool, true, false, Option, none, some, [], ◌∷◌}
use megaserver.Rows.{Stamp}
use megaserver.Ipv4.{Ipv4}
use megaserver.Json.{str}
use megaserver.Paths.{StatePaths}
use megaserver.Model.{ServiceRecord, SandboxRecord}
use megaserver.Manifest.{ServiceManifest, default_access}
use megaserver.State.{Db, empty_db}
use megaserver.Exec.{Sys}
use megaserver.Host.{Host}

abbrev pub stamp : Stamp
stamp = record { now = "2026-01-02T03:04:05Z"; spent = 1 }

abbrev pub manifest : ServiceManifest
manifest = record {
  name = "web";
  runtime = record { command = "serve" ∷ [] };
  network = record {
    port = some 8080;
    policy = record { ingress = default_access; egress = default_access };
  };
  resources = record { memory = none; cpu = none };
  volumes = "data" ∷ [];
  routes = "web.example" ∷ [];
  health = record { path = some "/health" };
}

abbrev pub host_ip : ℕ → Ipv4
host_ip n = record { a = 10; b = 42; c = 0; d = n }

-- Whether processes are alive is the argument.
abbrev pub host : Bool → Host
host living = record {
  World = Unit {0};
  refuses = λ w. (false, w);
  stamp = λ w. (stamp, w);
  now_string = λ w. ("2026-01-02T03:04:05Z", w);
  epoch_seconds = λ w. (1000, w);
  nanos = λ w. (1000, w);
  alive = λ pid w. (living, w);
  signal = λ pid s w. (true, w);
  rounds = λ timeout w. (3, w);
  http_get = λ url w. (some 200, w);
  exists = λ path w. (true, w);
  canonicalize = λ path w. (some path, w);
  read_to_string = λ path w. (some "text", w);
  write_file = λ path text w. (true, w);
  create_dir_all = λ path w. (true, w);
  remove_dir_all = λ path w. (true, w);
  copy_tree = λ source target w. (true, w);
  parse_yaml = λ text. some manifest;
  decode_manifest = λ text. some manifest;
  encode_manifest = λ m. some "manifest";
  encode_service = λ r. some "service";
  encode_json = λ value. some "json";
  show_json = λ value. "json";
  parse_json = λ text. some (str text);
  error_text = λ e. "error";
  hmac = λ key payload. some payload;
  parse_form = λ text. [];
  write_form = λ pairs. "query";
  is_net = λ text. true;
  subnet_hosts = host_ip 1 ∷ host_ip 2 ∷ [];
  plan = λ m w. (some (str "plan"), w);
  isolation_supported = λ w. (true, w);
  spawn = λ request w. (
    some (record {
      pid = 41;
      stdout_log = "out";
      stderr_log = "err";
      runtime_kind = "linux-namespace";
      isolation_mode = "full";
      cgroup_path = some "cgroup";
    }),
    w,
  );
  cleanup = λ metadata w. (true, w);
  refresh_policies = λ bindings w. (true, w);
  ensure_dns = λ w. (true, w);
  read_dns_pid = λ w. (some none, w);
  remove_dns_pid = λ w. (true, w);
}

abbrev pub paths : StatePaths
paths = record {
  home = "/srv";
  db_path = "/srv/state/megaserver.db";
  logs_dir = "/srv/logs";
  projects_dir = "/srv/projects";
  run_dir = "/srv/run";
  volumes_dir = "/srv/volumes";
  snapshots_dir = "/srv/snapshots";
}

abbrev pub service : ℕ → String → String → Option ℕ → ServiceRecord
service id name status pid = record {
  id = id;
  name = name;
  status = status;
  app_path = "/srv/app";
  manifest_json = "manifest";
  plan_json = "plan";
  pid = pid;
  port = some 8080;
  health_path = some "/health";
  created_at = "2026-01-01T00:00:00Z";
  updated_at = "2026-01-01T00:00:00Z";
}

abbrev pub sandbox : ℕ → String → String → Option ℕ → Option String → SandboxRecord
sandbox id name status pid ip = record {
  id = id;
  service_name = name;
  sandbox_id = "sandbox";
  hostname = "web.sandbox.megaserver";
  ip_address = ip;
  runtime_kind = "linux-namespace";
  isolation_mode = "full";
  status = status;
  pid = pid;
  cgroup_path = some "cgroup";
  created_at = "2026-01-01T00:00:00Z";
  updated_at = "2026-01-01T00:00:00Z";
}

-- Two services, the first of which runs as process 7, with their sandboxes, a secret and a route.
abbrev pub running_db : Db
running_db = record empty_db {
  services = record {
    rows = service 1 "web" "healthy" (some 7) ∷ service 2 "api" "stopped" none ∷ [];
    seq = 2;
  };
  sandboxes = record {
    rows =
        sandbox 1 "web" "running" (some 7) (some "10.42.0.1")
        ∷ sandbox 2 "api" "stopped" none (some "10.42.0.2")
        ∷ [];
    seq = 2;
  };
  secrets = record {
    rows =
        record {
          id = 1;
          service_name = "web";
          key = "TOKEN";
          value = "old";
          created_at = "2026-01-01T00:00:00Z";
        }
        ∷ [];
    seq = 1;
  };
  routes = record {
    rows =
        record {
          id = 1;
          service_name = "web";
          domain = "web.example";
          port = some 8080;
          created_at = "2026-01-01T00:00:00Z";
        }
        ∷ [];
    seq = 1;
  };
}

abbrev pub running : Sys (Unit {0})
running = record { db = running_db; world = tt }
