-- ===== src/App/Constraints/Inspect.antt =====
-- Inspections, which keep every property of the database.
use megaserver.Common.{String, Bool, true, false, Option}
use megaserver.Model.{ServiceRecord, SandboxRecord}
use megaserver.State.{Db}
use megaserver.Exec.Rules.{Keeps, keeps_rules}
use megaserver.Host.{Host}
use megaserver.App.Inspect.{read_health, inspect_value}
use megaserver.App.Constraints.Reads.{call_rules}

module _ (host : Host) {P : Db → Type 0} where
  Keeps-read_health :
      (asked : Bool) (r : ServiceRecord) (sandbox : Option SandboxRecord)
      → Keeps P (read_health host asked r sandbox)
  unfolding read_health
  Keeps-read_health true r sandbox = search call_rules
  Keeps-read_health false r sandbox = search keeps_rules

  pub Keeps-inspect_value : (service : String) → Keeps P (inspect_value host service)
  unfolding inspect_value
  Keeps-inspect_value service = search (call_rules, Keeps-read_health) depth 14
