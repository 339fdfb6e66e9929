-- ===== src/Tests/Limits.antt =====
-- Limits of rust/src/sandbox.rs on whole numbers in place of floating point ones, and the theorem on them.
use megaserver.Common.{ℕ, ◌*◌, ◌-◌, ◌^◌, ◌≡◌, refl, some, [], ◌∷◌}
use megaserver.Result.{ok, err}
use megaserver.Manifest.{ServiceManifest}
use megaserver.Ingress.{unsigned, parse_u64}
use megaserver.Http.Paths.{strip_suffix}
use megaserver.App.Projects.Names.{trim}
use megaserver.Common.Texts.{is_blank}
use megaserver.Sandbox.{
  SandboxResourceConfig, unsupported_memory_unit, memory_bytes, parse_memory_limit, parse_cpu_limit,
  parse_milli_cores, quota_of, resource_config,
}
use megaserver.Sandbox.Limits.{HasLimits, resource_config-HasLimits}
use megaserver.Tests.Systems.{manifest}

abbrev half_core : ServiceManifest
half_core = record manifest { resources = record { memory = some " 64 MB"; cpu = some "500m" } }

abbrev half_core_config : SandboxResourceConfig
half_core_config = record {
  memory_limit_bytes = some 67108864;
  cpu_quota_micros = some 50000;
  cpu_period_micros = 100000;
  cpu_weight = some 50;
  pids_limit = some 512;
}

limit_tests :
    (parse_memory_limit ℕ unsigned (λ x n. x * n) (λ x. x) (some "3x")
      ≡ err (unsupported_memory_unit (120 ∷ []) "3x"))
    × (parse_cpu_limit ℕ unsigned (λ x n. x * n) (λ x. x) (some "2") ≡ ok (some 200000, some 200))
    × (quota_of (2 ^ 64 - 1) ≡ 1)
unfolding parse_memory_limit memory_bytes parse_cpu_limit parse_milli_cores strip_suffix trim
    is_blank
limit_tests = (refl, refl, refl)

half_core_read : resource_config ℕ unsigned (λ x n. x * n) (λ x. x) half_core ≡ ok half_core_config
unfolding resource_config parse_memory_limit memory_bytes parse_cpu_limit parse_milli_cores
    strip_suffix trim is_blank parse_u64
half_core_read = refl

resource_config-HasLimits_example :
    HasLimits ℕ unsigned (λ x n. x * n) (λ x. x) half_core half_core_config
resource_config-HasLimits_example =
    resource_config-HasLimits ℕ unsigned (λ x n. x * n) (λ x. x) half_core half_core_config
      half_core_read
