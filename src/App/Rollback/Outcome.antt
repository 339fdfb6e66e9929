-- ===== src/App/Rollback/Outcome.antt =====
-- What `rollback_only` of rust/src/app.rs leaves behind: the snapshot's deployment, or the service as it was.
use megaserver.Common.{String, ◌≡◌, Option, some}
use megaserver.Result.{Result}
use megaserver.Paths.{StatePaths, join}
use megaserver.Model.{ServiceRecord, SnapshotRecord}
use megaserver.Manifest.{ServiceManifest}
use megaserver.State.{Db}
use megaserver.State.Services.{service_by_name}
use megaserver.Host.{Host}
use megaserver.App.Starting.{IsStarted}
use megaserver.App.Rollback.{rolled_back}
use megaserver.App.Rollback.Settings.{IsSetAs}

module _ (host : Host) (paths : StatePaths) (service snapshot : String)
    (kept : Option SnapshotRecord) where
  open host use {World, decode_manifest, read_to_string}

  -- The text is that of the manifest file of the snapshot's directory, read in some state of the world.
  abbrev pub IsRead : String → Type 0
  IsRead raw =
      (snap : SnapshotRecord) × (kept ≡ some snap)
      × ((w : World) × ((read_to_string (join snap.snapshot_path "manifest.json") w).0 ≡ some raw))

  -- It decodes to this manifest.
  abbrev pub IsSnapshot : String → ServiceManifest → Type 0
  IsSnapshot raw m = IsRead raw × (decode_manifest raw ≡ some m)

  -- The service is started from the settings of the manifest of the snapshot: its text, port and health path, and the
  -- app path and plan that the row had.
  abbrev pub IsRolledBack : ServiceRecord → Db → Type 0
  IsRolledBack r db =
      IsStarted service db
      × ((raw : String) × (m : ServiceManifest) × IsSnapshot raw m
          × IsSetAs (rolled_back service r raw m) db)

  module _ (r : ServiceRecord) where
    abbrev HasRow : Db → Type 0
    HasRow db = service_by_name db service ≡ some r
