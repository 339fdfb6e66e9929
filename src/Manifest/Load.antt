-- ===== src/Manifest/Load.antt =====
-- `load_manifest` of rust/src/manifest.rs.
use megaserver.Common.{String, true, false, Option, none, some, List, [], ◌∷◌}
use megaserver.Result.{Result, ok, err, or_error}
use megaserver.Paths.{join}
use megaserver.Manifest.{
  ServiceManifest, ManifestError, missing_manifest, unreadable, unparsable, check_manifest,
}
use megaserver.Exec.{AppError, bad_manifest, M, pure, ◌>>=◌, call, lift}
use megaserver.Host.{Host}

abbrev pub manifest_names : List String
manifest_names = "megaserver.yml" ∷ "megaserver.yaml" ∷ "Megaserver.yml" ∷ "Megaserver.yaml" ∷ []

abbrev as_app : Result ManifestError ServiceManifest → Result AppError ServiceManifest
as_app (ok m) = ok m
as_app (err e) = err (bad_manifest e)

module _ (host : Host) where
  open host use {World, exists, read_to_string, parse_yaml, is_net}

  -- `candidates.into_iter().find(|path| path.exists())`
  unfoldable pub find_manifest : String → List String → M World (Option String)
  find_manifest app_path [] = pure none
  find_manifest app_path (name ∷ names) = do
    here ← call (exists (join app_path name))
    elim here [ true ↦ pure (some (join app_path name)) | false ↦ find_manifest app_path names ]

  unfoldable pub load_manifest : String → M World ServiceManifest
  unfolding find_manifest
  load_manifest app_path = do
    found ← find_manifest app_path manifest_names
    path ← lift (or_error found (bad_manifest missing_manifest))
    text ← call (read_to_string path)
    raw ← lift (or_error text (bad_manifest (unreadable path)))
    manifest ← lift (or_error (parse_yaml raw) (bad_manifest (unparsable path)))
    lift (as_app (check_manifest is_net manifest))
