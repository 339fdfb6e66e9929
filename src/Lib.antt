-- ===== src/Lib.antt =====
-- A model of the Rust host of megaserver (rust/src): a control plane that keeps services, their sandboxes, routes,
-- volumes, secrets, snapshots, projects and events in one SQLite database, and starts, stops and wires the processes.
--
-- The parts and their files. A request (rust/src/host_abi.rs, `dispatch_value`) runs an operation of rust/src/app.rs,
-- which runs statements of rust/src/state.rs and calls the operating system and the other files.
--
--   rust/src/model.rs      Model.antt: a record for each row that a query returns.
--   rust/src/state.rs      State.antt (the tables), State/Services, State/Sandboxes, State/Resources, State/Projects (a
--                          function for each function of the source, by its name), State/Ips (allocate_sandbox_ip),
--                          Paths (StatePaths). Rows.antt is what SQL does to a table: insert, find, update, delete,
--                          upsert with ON CONFLICT, ORDER BY. About them: State/WellFormed, State/Lookups, State/Upserts,
--                          State/Deletion, State/Listing, State/Ips/Laws.
--   rust/src/manifest.rs   Manifest.antt (the sections and the checks), Manifest/Load, Manifest/Validity.
--   rust/src/app.rs        App/Support, App/Network, App/Start, App/Stop, App/Deploy, App/Resources, App/Inspect,
--                          App/Rollback (rollback_only and its recovery), App/Links (signed_link_value, and
--                          ingress_resolve_value of host_abi.rs). About them: App/Constraints and its children,
--                          App/Starting, App/Stopping, App/Destroying, App/Recorded, App/Rollback/Refused, /Settings, /Restored and
--                          /Outcome, and App/Succeeding (what is asked of the host for a start or a stop to return).
--   rust/src/projects.rs   App/Projects (import and deployment), App/Projects/Names.
--   rust/src/host_abi.rs   App/Requests: the actions that run these operations, and a run of them. About it:
--                          App/Bystanders, App/Refusing. Http.antt (http_action_request), Http/Paths (the paths of
--                          services), Http/Actions (what dispatch_value reads of a request). About them:
--                          Http/Paths/Names, Http/Routing, Http/Unrouted.
--   rust/src/daemon.rs     Daemon.antt: reconcile_once. About it: Daemon/Failures.
--   rust/src/ingress.rs    Ingress.antt: signed_link and resolve_signed_target. About them: Ingress/Links, Ingress/Decimals,
--                          Ingress/Signing.
--   rust/src/proxy.rs      Proxy.antt: proxy_request and its plan. About it: Proxy/Plans, Proxy/Dropping, Proxy/Forwarding.
--   rust/src/http_host.rs  HttpHost.antt: handle_fzy_http. About it: HttpHost/Attempts, HttpHost/Responses.
--   rust/src/controlplane.rs  Control.antt: the calls of the control plane. About them: Control/Accepted.
--   rust/src/sandbox.rs    Sandbox.antt: resource_config and its parsers. About it: Sandbox/Limits.
--   rust/src/runtime.rs    Host/Processes: stop_pid and the health check.
--   rust/src/dns.rs        Dns.antt (packets), Dns/Lookup (lookup_name, respond), App/Network (stop_if_idle). About them:
--                          Dns/Packets, Dns/RoundTrip, Dns/Answers, Dns/Responses.
--   rust/src/network.rs    Network.antt: policy_allows and compile_policy_rules. Network/Chain describes an iptables chain,
--                          and Network/Verdicts is about what the rules decide on it.
--
-- State and effects. The database is a record of ten tables, each a list of rows in row-id order with the sequence
-- number of AUTOINCREMENT. An operation (Exec.antt) takes the database and a state of the world and gives a value or
-- an error with both of them changed: what was written before an error stays written. Host.antt is all that the
-- program calls outside its own logic: the clock, signals, files, HTTP, the crates for YAML, JSON and CIDR texts, and
-- the calls that set up namespaces, firewalls and child processes. Nothing is assumed of its answers; SQLite may
-- refuse any query or statement. The proxy, the HTTP server and the client of the control plane keep no state: what
-- they call is a field of their Outside or an argument, as the floating point numbers of the limits are. `?` is the
-- monad's bind, `let _ =` is `attempt` or `ignore`. Keeps (Exec/Rules) says that a property of the database survives
-- an action even if it fails, Gives (Exec/Outcomes) what holds where it returns, Ends (Exec/Endings) what holds where
-- it returns and where it fails, Refuses (Exec/Refusals) that it fails and changes nothing, and Succeeds
-- (Exec/Successes) that it returns or fails with the error of one of the two calls that other files of the program
-- answer, spawn_service and refresh_sandbox_policies.
--
-- Numbers are natural numbers; ids, ports and process ids are never computed with, so no width matters to them. Bytes
-- of a packet are numbers, and what the source takes modulo 256 or masks is written so, as is the wrapping of the
-- 64-bit arithmetic of links and limits. Texts are compared as they are; in Dns a name is the list of its UTF-8 bytes
-- (Common/Utf8). An object of serde_json is a list of entries sorted by key, as its map is here (Json).
--
-- Fuel. A polling loop runs for as many rounds as the host says that the clock allows. The loop over the labels of a
-- packet has one round more than the packet has bytes, and Dns/Packets shows that it never needs more. The three attempts
-- of the HTTP server are three rounds.
--
-- Not modelled: shell_only and the printing commands of rust/src/app.rs, uploads of rust/src/projects.rs, the listeners
-- of rust/src/daemon.rs, the commands of rust/src/network.rs, the listing actions of rust/src/host_abi.rs, which are left
-- for later; and what is input and output alone: the listeners and the websocket relay of rust/src/proxy.rs, the listener
-- of rust/src/http_host.rs, rust/src/tls.rs, rust/src/ffi.rs, rust/src/cli.rs, and the namespaces, mounts and cgroups of
-- rust/src/sandbox.rs. Two requests do not interleave: the theorems are about one after the other.
pub mod Common
pub mod Rows
pub mod Model
pub mod State
pub mod Ipv4
pub mod Json
pub mod Paths
pub mod Result
pub mod Manifest
pub mod Exec
pub mod Host
pub mod App
pub mod Dns
pub mod Network
pub mod Daemon
pub mod Ingress
pub mod Http
pub mod Control
pub mod Proxy
pub mod HttpHost
pub mod Sandbox
pub mod Tests
