-- ===== src/Host/Files.antt =====
-- File-system calls with `?`, and without.
use megaserver.Common.{String, Bool, true, false, Option}
use megaserver.Result.{or_error}
use megaserver.Exec.{io, M, pure, raise, ◌>>=◌, call, lift}

module _ {W : Type 0} where
  unfoldable pub check : String → Bool → M W (Unit {0})
  check what true = pure tt
  check what false = raise (io what)

  -- A call that tells whether it worked, with `?`.
  unfoldable pub must : String → (W → Bool × W) → M W (Unit {0})
  unfolding check
  must what f = do done ← call f; check what done

  -- A call that may give nothing, with `?`.
  unfoldable pub must_give : {A : Type 0} → String → (W → Option A × W) → M W A
  must_give what f = do found ← call f; lift (or_error found (io what))

  -- `let _ = f(...)`
  unfoldable pub ignore : (W → Bool × W) → M W (Unit {0})
  ignore f = do done ← call f; pure tt
