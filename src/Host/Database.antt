-- ===== src/Host/Database.antt =====
-- Queries and statements, each of which the engine may refuse (`?` on a `rusqlite` call), and the shared
-- statements of rust/src/state.rs that make other calls on the way.
use megaserver.Common.{String, Bool, true, false, Option}
use megaserver.Result.{or_error}
use megaserver.Rows.{Stamp}
use megaserver.Json.{Json}
use megaserver.Host.{Host}
use megaserver.State.{Db}
use megaserver.State.Resources.{emit_event}
use megaserver.Exec.{io, M, pure, raise, ◌>>=◌, ◌>>◌, read, write, call, lift}

module _ (host : Host) where
  open host use {World, refuses, stamp, encode_json}

  unfoldable pub check_engine : String → Bool → M World (Unit {0})
  check_engine what true = raise (io what)
  check_engine what false = pure tt

  -- `state::open(paths)?`, and each statement's own check.
  unfoldable pub open_db : M World (Unit {0})
  unfolding check_engine
  open_db = do refused ← call refuses; check_engine "database" refused

  unfoldable pub query : {A : Type 0} → (Db → A) → M World A
  unfolding open_db
  query f = do open_db; read f

  unfoldable pub exec : (Stamp → Db → Db) → M World (Unit {0})
  unfolding open_db
  exec f = do open_db; st ← call stamp; write (f st)

  -- `state::emit_event`: `serde_json::to_string(&details)?` comes before the statement.
  unfoldable pub emit : Option String → String → Json → M World (Unit {0})
  unfolding exec
  emit service kind details = do
    text ← lift (or_error (encode_json details) (io "details"))
    exec (λ st. emit_event st service kind text)
