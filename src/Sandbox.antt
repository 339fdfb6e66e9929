-- ===== src/Sandbox.antt =====
-- The limits of rust/src/sandbox.rs: parse_memory_limit, parse_cpu_limit and resource_config. Floating point numbers are an
-- argument: their type, the parser, the product with a whole number, and the cast to `u64`, which saturates.
pub mod Limits
use megaserver.Common.{
  ℕ, ◌+◌, ◌*◌, ◌/◌, ◌%◌, ◌^◌, String, Bool, true, false, ◌&&◌, ◌||◌, not, Option, none, some, List,
  [], ◌∷◌, map, reverse, select, leb, ltb, nat_eq, ◌==◌, if◌then◌else◌,
}
use megaserver.Common.Texts.{codes, is_whitespace, to_ascii_lowercase, same_codes}
use megaserver.Result.{Result, ok, err, or_error, ◌>>=◌}
use megaserver.App.Projects.Names.{trim}
use megaserver.Http.Paths.{strip_suffix}
use megaserver.Ingress.{parse_u64}
use megaserver.Manifest.{ServiceManifest}

pub record SandboxResourceConfig : Type 0 where
  pub memory_limit_bytes : Option ℕ
  pub cpu_quota_micros : Option ℕ
  pub cpu_period_micros : ℕ
  pub cpu_weight : Option ℕ
  pub pids_limit : Option ℕ

pub data LimitError : Type 0 where
  invalid_memory_limit : String → LimitError
  unsupported_memory_unit : List ℕ → String → LimitError
  invalid_cpu_limit : String → LimitError

-- `trim` on code points.
abbrev drop_space : List ℕ → List ℕ
drop_space [] = []
drop_space (c ∷ cs) = let rest = drop_space cs in if is_whitespace c then rest else c ∷ cs

abbrev trim_codes : List ℕ → List ℕ
trim_codes cs = reverse (drop_space (reverse (drop_space cs)))

abbrev is_number_char : ℕ → Bool
is_number_char c = (leb b'0' c && leb c b'9') || nat_eq c b'.'

abbrev lower_codes : String → List ℕ
lower_codes raw = map to_ascii_lowercase (codes raw)

-- The arms of the match on the unit.
abbrev multiplier : List ℕ → Option ℕ
multiplier unit =
    if same_codes unit [] || same_codes unit (codes "b")
    then some 1
    else if same_codes unit (codes "k") || same_codes unit (codes "kb")
    then some 1024
    else if same_codes unit (codes "m") || same_codes unit (codes "mb")
    then some (1024 * 1024)
    else if same_codes unit (codes "g") || same_codes unit (codes "gb")
    then some (1024 * 1024 * 1024)
    else if same_codes unit (codes "t") || same_codes unit (codes "tb")
    then some (1024 * 1024 * 1024 * 1024)
    else none

-- `((milli_cores as u128) * (period as u128) / 1000_u128) as i64` and `quota.max(1)`: a cast to a negative number becomes 1.
-- The product fits 128 bits.
abbrev pub quota_of : ℕ → ℕ
quota_of milli_cores =
    let wrapped = (milli_cores * 100000 / 1000) % 2 ^ 64 in
    if leb 1 wrapped && ltb wrapped (2 ^ 63) then wrapped else 1

abbrev at_least_100 : ℕ → ℕ
at_least_100 n = if leb 100 n then n else 100

abbrev clamp_weight : ℕ → ℕ
clamp_weight n = if leb n 1 then 1 else if leb n 10000 then n else 10000

-- `((milli_cores.max(100) * 100) / 1000).clamp(1, 10_000)`, whose product wraps in a release build.
abbrev pub weight_of : ℕ → ℕ
weight_of milli_cores = clamp_weight (((at_least_100 milli_cores * 100) % 2 ^ 64) / 1000)

module _ (Float : Type 0) (parse_f64 : List ℕ → Option Float) (times : Float → ℕ → Float)
    (as_u64 : Float → ℕ) where
  unfoldable pub memory_bytes : String → Result LimitError ℕ
  memory_bytes raw = do
    value ←
        or_error (parse_f64 (select is_number_char (lower_codes raw))) (invalid_memory_limit raw)
    let unit = trim_codes (select (λ c. not (is_number_char c)) (lower_codes raw))
    factor ← or_error (multiplier unit) (unsupported_memory_unit unit raw)
    ok (as_u64 (times value factor))

  unfoldable pub parse_memory_limit : Option String → Result LimitError (Option ℕ)
  unfolding memory_bytes
  parse_memory_limit none = ok none
  parse_memory_limit (some text) =
      if trim text == "" then ok none else memory_bytes (trim text) >>= λ n. ok (some n)

  unfoldable pub parse_milli_cores : String → Result LimitError ℕ
  parse_milli_cores raw = elim (strip_suffix "m" raw) [
    | some prefix ↦ or_error (parse_u64 (trim prefix)) (invalid_cpu_limit raw)
    | none ↦ or_error (parse_f64 (codes raw)) (invalid_cpu_limit raw) >>= λ cpus.
        ok (as_u64 (times cpus 1000))
  ]

  unfoldable pub parse_cpu_limit : Option String → Result LimitError (Option ℕ × Option ℕ)
  unfolding parse_milli_cores
  parse_cpu_limit none = ok (none, some 100)
  parse_cpu_limit (some text) =
      if trim text == ""
      then ok (none, some 100)
      else parse_milli_cores (trim text) >>= λ n. ok (some (quota_of n), some (weight_of n))

  unfoldable pub resource_config : ServiceManifest → Result LimitError SandboxResourceConfig
  unfolding parse_memory_limit parse_cpu_limit
  resource_config manifest = do
    memory_limit_bytes ← parse_memory_limit manifest.resources.memory
    cpu ← parse_cpu_limit manifest.resources.cpu
    ok (record {
      memory_limit_bytes = memory_limit_bytes;
      cpu_quota_micros = cpu.0;
      cpu_period_micros = 100000;
      cpu_weight = cpu.1;
      pids_limit = some 512;
    })
