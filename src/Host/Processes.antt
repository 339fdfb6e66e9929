-- ===== src/Host/Processes.antt =====
-- Processes and health checks in rust/src/runtime.rs. A polling loop runs for as many rounds as the clock
-- allows before its deadline, which the host tells in advance.
use megaserver.Common.{ℕ, zero, suc, String, Bool, true, false, Option, none, some, [], ◌∷◌, ltb}
use megaserver.Common.Texts.{concat, decimal}
use megaserver.Json.{Json, object, str, num}
use megaserver.Host.{Host, sigterm, sigkill}
use megaserver.Host.Files.{must}
use megaserver.Exec.{unhealthy, M, pure, raise, ◌>>=◌, ◌>>◌, call}

unfoldable pub accepts : Option ℕ → Bool
accepts none = false
accepts (some code) = ltb code 500

abbrev status_code : Option ℕ → ℕ
status_code none = 0
status_code (some code) = code

module _ (host : Host) where
  open host use {World, alive, signal, rounds, http_get, show_json}

  unfoldable pub process_alive : ℕ → M World Bool
  process_alive pid = call (alive pid)

  -- After the deadline: SIGKILL if the process is still there.
  unfoldable pub finish_stop : ℕ → Bool → M World (Unit {0})
  finish_stop pid true = must "failed to send SIGKILL" (signal pid sigkill)
  finish_stop pid false = pure tt

  -- The polling loop of `stop_pid`, with its remaining rounds.
  unfoldable pub poll_stop : ℕ → ℕ → M World (Unit {0})
  unfolding process_alive finish_stop
  poll_stop zero pid = do here ← process_alive pid; finish_stop pid here
  poll_stop (suc n) pid = do
    here ← process_alive pid
    elim here [ true ↦ poll_stop n pid | false ↦ pure tt ]

  unfoldable pub terminate : ℕ → ℕ → Bool → M World (Unit {0})
  unfolding poll_stop
  terminate pid timeout false = pure tt
  terminate pid timeout true = do
    must "failed to send SIGTERM" (signal pid sigterm)
    n ← call (rounds timeout)
    poll_stop n pid

  -- The timeout is in milliseconds.
  unfoldable pub stop_pid : ℕ → ℕ → M World (Unit {0})
  unfolding process_alive terminate
  stop_pid pid timeout = do here ← process_alive pid; terminate pid timeout here

  abbrev pub healthy_json : String → ℕ → Json
  healthy_json url code =
      object (("status", str "healthy") ∷ ("url", str url) ∷ ("code", num code) ∷ [])

  -- A response under 500 ends the loop; any other answer goes on. (The source tests the status of the same
  -- response once more after its pause, with the same result.)
  unfoldable pub poll_health : ℕ → String → M World String
  unfolding accepts
  poll_health zero url = raise (unhealthy url)
  poll_health (suc n) url = do
    answer ← call (http_get url)
    elim (accepts answer) [
      | true ↦ pure (show_json (healthy_json url (status_code answer)))
      | false ↦ poll_health n url
    ]

  abbrev health_url : String → ℕ → Option String → String
  health_url address port none = concat ("http://" ∷ address ∷ ":" ∷ decimal port ∷ "/" ∷ [])
  health_url address port (some path) =
      concat ("http://" ∷ address ∷ ":" ∷ decimal port ∷ path ∷ [])

  unfoldable pub health_check_with_timeout : String → Option ℕ → Option String → ℕ → M World String
  unfolding poll_health
  health_check_with_timeout address none path timeout = pure "no-port-configured"
  health_check_with_timeout address (some port) path timeout = do
    n ← call (rounds timeout)
    poll_health n (health_url address port path)

  unfoldable pub health_check : String → Option ℕ → Option String → M World String
  unfolding health_check_with_timeout
  health_check address port path = health_check_with_timeout address port path 10000
