-- ===== src/Exec.antt =====
-- The effects of the functions of rust/src/app.rs and rust/src/daemon.rs: they read and write the database, call
-- the host (processes, files, the network, the clock), and return early with an error. What was written before an
-- error stays written, so the state comes back beside the error too.
pub mod Rules
pub mod Outcomes
pub mod Refusals
pub mod Endings
pub mod Successes
use megaserver.Common.{ℕ, String, Bool, true, false, Option, none, some, List, [], ◌∷◌}
use megaserver.Common.Texts.{concat}
use megaserver.Result.{Result, ok, err}
use megaserver.State.{Db}
use megaserver.Rows.{Stamp}
use megaserver.Dns.{DnsError}
use megaserver.Ingress.{LinkError}
use megaserver.Manifest.{ManifestError}

-- The errors that the functions make, apart from the wording. `io` is any refusal of the host or of the
-- database engine, with what was attempted.
pub data AppError : Type 0 where
  io : String → AppError
  bad_manifest : ManifestError → AppError
  bad_manifest_json : AppError
  unknown_service : String → AppError
  already_running : String → ℕ → AppError
  bad_stored_ip : String → AppError
  no_available_ips : AppError
  not_exposed : String → String → AppError
  missing_signing_key : String → AppError
  bad_link : LinkError → AppError
  no_route : String → AppError
  service_unavailable : AppError
  missing_route_port : AppError
  links_not_enabled : AppError
  duplicate_snapshot : String → AppError
  unhealthy : String → AppError
  unknown_project : String → AppError
  empty_project_name : AppError
  bad_project_name : String → AppError
  bad_dns : DnsError → AppError
  unknown_snapshot : String → AppError
  foreign_snapshot : String → String → String → AppError
  rollback_restored : String → AppError → AppError
  rollback_unrecovered : String → AppError → AppError → AppError

-- `err.to_string()` of a failed health check, which has no other error.
abbrev pub message : AppError → String
message (unhealthy url) = concat ("health check failed for " ∷ url ∷ [])
message _ = ""

-- The database and the rest of the world.
pub record Sys (W : Type 0) : Type 0 where
  pub db : Db
  pub world : W

abbrev pub M : Type 0 → Type 0 → Type 0
M W A = Sys W → Result AppError A × Sys W

module _ {W : Type 0} where
  unfoldable pub pure : {A : Type 0} → A → M W A
  pure a s = (ok a, s)

  unfoldable pub raise : {A : Type 0} → AppError → M W A
  raise e s = (err e, s)

  abbrev pub continue : {A B : Type 0} → Result AppError A → (A → M W B) → M W B
  continue (ok a) f s = f a s
  continue (err e) f s = (err e, s)

  infixl 5 ◌>>=◌ ◌>>◌
  unfoldable pub ◌>>=◌ : {A B : Type 0} → M W A → (A → M W B) → M W B
  ◌>>=◌ m f s = let (r, s') = m s in continue r f s'

  abbrev pub ◌>>◌ : {B : Type 0} → M W (Unit {0}) → M W B → M W B
  m >> k = m >>= λ _. k

  -- A value of the database.
  unfoldable pub read : {A : Type 0} → (Db → A) → M W A
  read f s = (ok (f s.db), s)

  -- A statement that runs.
  unfoldable pub write : (Db → Db) → M W (Unit {0})
  write f s = (ok tt, record s { db = f s.db })

  -- A statement that a constraint may refuse.
  unfoldable pub try_write : (Db → Option Db) → AppError → M W (Unit {0})
  try_write f e s = elim (f s.db) [ none ↦ (err e, s) | some db ↦ (ok tt, record s { db = db }) ]

  -- A call of the host that always answers.
  unfoldable pub call : {A : Type 0} → (W → A × W) → M W A
  call f s = let (a, w) = f s.world in (ok a, record s { world = w })

  -- `?` on a value at hand.
  unfoldable pub lift : {A : Type 0} → Result AppError A → M W A
  lift r s = (r, s)

  -- `let result = m;` without `?`: the error becomes a value.
  unfoldable pub attempt : {A : Type 0} → M W A → M W (Result AppError A)
  attempt m s = let (r, s') = m s in (ok r, s')
