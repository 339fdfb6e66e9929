-- ===== src/App/Rollback/Refused.antt =====
-- Rollbacks of rust/src/app.rs that fail before they change anything.
use mathlib.Core.Path.{subst}
use megaserver.Common.{
  refl, arith, sym, ◌≡◌, ◌∙◌, ◌⊎◌, inl, inr, String, Bool, true, false, Option, none, some, eq_iff,
  ◌==◌,
}
use megaserver.Result.{ok, or_error}
use megaserver.Paths.{StatePaths}
use megaserver.Model.{SnapshotRecord}
use megaserver.State.{Db}
use megaserver.State.Services.{service_by_name}
use megaserver.State.Resources.{snapshot_by_name}
use megaserver.Exec.{Sys, unknown_snapshot}
use megaserver.Exec.Rules.{keeps_rules}
use megaserver.Exec.Outcomes.{Gives-lift}
use megaserver.Exec.Refusals.{
  IsRefusal, Refuses, Refuses-bind, Refuses-impossible, Refuses-weaken, Refuses-bind_after,
  Refuses-bind_kept, Refuses-raise,
}
use megaserver.Host.{Host}
use megaserver.App.Constraints.{Keeps-open_db, Keeps-query}
use megaserver.App.Constraints.Reads.{call_rules}
use megaserver.App.Constraints.Rollback.{Keeps-check_owner}
use megaserver.App.Stopping.{Gives-query}
use megaserver.App.Refusing.{IsMissing, Refuses-load_service}
use megaserver.App.Rollback.{check_owner, rollback_only}

module _ (host : Host) (paths : StatePaths) (service snapshot : String) where
  open host use {World}

  -- The snapshot is there and belongs to the service.
  abbrev pub IsOwned : Option SnapshotRecord → Type 0
  IsOwned none = ⊥
  IsOwned (some snap) = snap.service_name ≡ service

  abbrev HasNone : Db → Type 0
  HasNone db = ¬ IsOwned (snapshot_by_name db snapshot)

  found_snapshot :
      (found : Option SnapshotRecord) (snap : SnapshotRecord)
      → or_error found (unknown_snapshot snapshot) ≡ ok snap
      → found ≡ some snap
  found_snapshot found snap e = ground arith

  Refuses-foreign :
      (snap : SnapshotRecord) (own : Bool)
      → (snap.service_name == service) ≡ own
      → Refuses (λ db. ¬ IsOwned (some snap)) (check_owner host paths service snapshot snap)
  unfolding check_owner
  Refuses-foreign snap true e =
      Refuses-impossible _ (λ db h. h (ground (arith, eq_iff snap.service_name service)))
  Refuses-foreign snap false e = rw e (Refuses-raise _)

  -- Where no snapshot of the name belongs to the service.
  Refuses-unowned : Refuses HasNone (rollback_only host paths service snapshot)
  unfolding rollback_only
  Refuses-unowned =
      Refuses-bind_kept _ _ (λ Q. Keeps-open_db host)
        λ u.
          Refuses-bind_after _ _ (λ Q. Keeps-query host _) (Gives-query host _)
            λ found.
              Refuses-bind_after _ _ (λ Q. search keeps_rules) (Gives-lift _)
                λ snap. Refuses-bind _ _ (
                  Refuses-weaken _
                    (λ db h owned.
                      h.0.0 (subst IsOwned (sym (h.0.1 ∙ found_snapshot found snap h.1)) owned))
                    (Refuses-foreign snap _ refl))

  -- Where the service has no row.
  Refuses-IsMissing : Refuses (IsMissing host service) (rollback_only host paths service snapshot)
  unfolding rollback_only
  Refuses-IsMissing =
      Refuses-bind_kept _ _ (λ Q. Keeps-open_db host)
        λ u.
          Refuses-bind_kept _ _ (λ Q. Keeps-query host _)
            λ found.
              Refuses-bind_kept _ _ (λ Q. search keeps_rules)
                λ snap.
                  Refuses-bind_kept _ _ (λ Q. Keeps-check_owner host paths service snapshot snap)
                    λ v.
                      Refuses-bind_kept _ _ (λ Q. search call_rules)
                        λ raw.
                          Refuses-bind_kept _ _ (λ Q. search keeps_rules)
                            λ m. Refuses-bind _ _ (Refuses-load_service host service)

-- A rollback to a snapshot that is not there or belongs to another service, or of a service without a row, fails
-- whatever the host answers, and leaves the database as it was.
pub rollback_only-IsRefusal :
    (host : Host) (paths : StatePaths) (service snapshot : String) (s : Sys (Host.World host))
    → (¬ IsOwned host paths service snapshot (snapshot_by_name s.db snapshot))
      ⊎ (service_by_name s.db service ≡ none)
    → IsRefusal s.db (rollback_only host paths service snapshot s)
rollback_only-IsRefusal host paths service snapshot s (inl unowned) =
    (Refuses-unowned host paths service snapshot).at s unowned
rollback_only-IsRefusal host paths service snapshot s (inr missing) =
    (Refuses-IsMissing host paths service snapshot).at s missing
