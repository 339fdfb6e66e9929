-- ===== src/Sandbox/Limits.antt =====
-- The bounds of the limits that `resource_config` of rust/src/sandbox.rs makes of a manifest.
use mathlib.Core.Path.{subst}
use megaserver.Common.{
  ℕ, ◌*◌, ◌/◌, ◌^◌, ◌≤◌, ◌<◌, ◌≡◌, ◌⊎◌, refl, String, true, Option, none, some, List, arith,
  Bool-cases, inl, inr, ◌==◌,
}
use megaserver.Result.{ok, OnOk, OnOk-ok, OnOk-bind, OnOk-self}
use megaserver.Manifest.{ServiceManifest}
use megaserver.App.Projects.Names.{trim}
use megaserver.Sandbox.{
  SandboxResourceConfig, quota_of, weight_of, parse_memory_limit, parse_milli_cores,
  parse_cpu_limit, resource_config,
}

-- A quota and a weight for a number of thousandths of a core.
pub record IsCpuLimit (milli_cores quota weight : ℕ) : Type 0 where
  pub quota_low : 1 ≤ quota
  pub quota_high : quota < 2 ^ 63
  pub quota_exact : 1 ≤ milli_cores → milli_cores * 100 < 2 ^ 63 → quota ≡ milli_cores * 100
  pub weight_low : 1 ≤ weight
  pub weight_high : weight ≤ 10000
  pub weight_exact : 100 ≤ milli_cores → milli_cores ≤ 100000 → weight ≡ milli_cores / 10

limits-IsCpuLimit : (n : ℕ) → IsCpuLimit n (quota_of n) (weight_of n)
limits-IsCpuLimit n = record {
  quota_low = ground arith;
  quota_high = ground arith;
  quota_exact = λ h k. ground arith;
  weight_low = ground arith;
  weight_high = ground arith;
  weight_exact = λ h k. ground arith;
}

module _ (Float : Type 0) (parse_f64 : List ℕ → Option Float) (times : Float → ℕ → Float)
    (as_u64 : Float → ℕ) where
  -- The limits that stand for a text, or for none.
  abbrev pub IsLimitOf : Option String → Option ℕ × Option ℕ → Type 0
  IsLimitOf none limits = limits ≡ (none, some 100)
  IsLimitOf (some text) limits =
      (((trim text == "") ≡ true) × (limits ≡ (none, some 100)))
      ⊎ ((n : ℕ) × (quota : ℕ) × (weight : ℕ) × (parse_milli_cores Float parse_f64 times as_u64
              (trim text)
            ≡ ok n)
          × (limits ≡ (some quota, some weight))
          × IsCpuLimit n quota weight)

  parse_cpu_limit-IsLimitOf :
      (cpu : Option String)
      → OnOk (IsLimitOf cpu) (parse_cpu_limit Float parse_f64 times as_u64 cpu)
  unfolding parse_cpu_limit
  parse_cpu_limit-IsLimitOf none = OnOk-ok (none, some 100) refl
  parse_cpu_limit-IsLimitOf (some text) = elim (Bool-cases (trim text == "")) [
    | inl e ↦ rw (parse_cpu_limit, e) (OnOk-ok (none, some 100) (inl (e, refl)))
    | inr e ↦
        rw (parse_cpu_limit, e)
          (OnOk-bind (parse_milli_cores Float parse_f64 times as_u64 (trim text))
            (λ n. ok (some (quota_of n), some (weight_of n)))
            (OnOk-self (parse_milli_cores Float parse_f64 times as_u64 (trim text)))
            (λ n parsed.
              OnOk-ok (some (quota_of n), some (weight_of n))
                (inr (n, quota_of n, weight_of n, parsed, refl, limits-IsCpuLimit n))))
  ]

  abbrev pub HasLimits : ServiceManifest → SandboxResourceConfig → Type 0
  HasLimits manifest config =
      IsLimitOf manifest.resources.cpu (config.cpu_quota_micros, config.cpu_weight)
      × (parse_memory_limit Float parse_f64 times as_u64 manifest.resources.memory
          ≡ ok config.memory_limit_bytes)

  OnOk-resource_config :
      (manifest : ServiceManifest)
      → OnOk (HasLimits manifest) (resource_config Float parse_f64 times as_u64 manifest)
  unfolding resource_config
  OnOk-resource_config manifest =
      let memory = parse_memory_limit Float parse_f64 times as_u64 manifest.resources.memory in
      let cpu = parse_cpu_limit Float parse_f64 times as_u64 manifest.resources.cpu in
      OnOk-bind memory _ (OnOk-self memory) (λ bytes read.
        OnOk-bind cpu _ (parse_cpu_limit-IsLimitOf manifest.resources.cpu)
          (λ limits limited. OnOk-ok _ (limited, read)))

  -- Where the limits of a manifest can be read, the memory limit is the one that was read, and without a limit on the
  -- processor the sandbox has no quota and the weight 100; with one, of n thousandths of a core, the quota is between 1
  -- and 2^63 - 1 and the weight between 1 and 10000. The quota is a hundred times n where n is not 0 and that is below
  -- 2^63, and the weight is a tenth of n where n is between 100 and 100000.
  pub resource_config-HasLimits :
      (manifest : ServiceManifest) (config : SandboxResourceConfig)
      → resource_config Float parse_f64 times as_u64 manifest ≡ ok config
      → HasLimits manifest config
  resource_config-HasLimits manifest config e =
      (subst (OnOk (HasLimits manifest)) e (OnOk-resource_config manifest)).holds
