-- ===== src/Runtime/WsClient/Examples.antt =====
-- A failed attempt of the loop, and the theorems at concrete clients.
use xianyu_manager.Text.{strip}
use xianyu_manager.Runtime.WsClient.Lifecycle.{after_all, send-step_all}
use xianyu_manager.Runtime.WsClient.Background.{Event, call, runs, step_all}
use xianyu_manager.Runtime.WsClient.Backoff.{after_retries, calculate_retry_delay-doubles}
use xianyu_manager.Runtime.WsClient.{
  WebSocketClient, calculate_retry_delay, cannot_send, clear_stop, fresh, raised,
  reset_reconnect_count, returned, send, is_blank, backing_off, no_runner, waiting,
}
use xianyu_manager.Runtime.WsClient.Loop.{
  Turn, ended, op_heartbeat, op_send, op_disconnect, op_start, run_forever, run_forever-once, turn,
}
use xianyu_manager.Prelude.{
  ◌*◌, List, [], false, if◌then◌else◌, min, refl, some, true, ℕ, ◌∷◌, ◌≡◌, ◌≤◌,
}

abbrev client : WebSocketClient
client = fresh "seller" "unb=1"

abbrev failing : Turn
failing = record { starts = false; until_stopped = []; during_backoff = op_send "hello" ∷ [] }

abbrev fine : Turn
fine = record { starts = true; until_stopped = []; during_backoff = [] }

run_forever-once_example :
    run_forever (failing ∷ fine ∷ []) client ≡ ended 1 (turn failing (clear_stop client))
run_forever-once_example = run_forever-once failing (fine ∷ []) client

calculate_retry_delay-doubles_example :
    let delay =
      λ (n : ℕ). (calculate_retry_delay (after_retries n (reset_reconnect_count client))).0 in
    (delay 0 ≡ 1) × (delay 5 ≡ min (2 * delay 4) 32) × (1 ≤ delay 4) × (delay 4 ≤ 32)
calculate_retry_delay-doubles_example = calculate_retry_delay-doubles 4 client

-- The task connects, a disconnection wakes it, and it ends; a second one is started.
abbrev events : List Event
events =
    call op_start
    ∷ call op_start
    ∷ runs true
    ∷ call (op_heartbeat "1")
    ∷ call op_disconnect
    ∷ runs true
    ∷ call op_start
    ∷ runs true
    ∷ []

send-step_all_example :
    let c = step_all events client in
    let (linked, r) = after_all events (false, no_runner) in
    (c.runner_task ≡ r)
    × (send "hello" c ≡ (
        if linked
        then returned (record c { last_sent_payload = some "hello" })
        else raised cannot_send c))
unfolding is_blank strip
send-step_all_example = send-step_all events "seller" "unb=1" "hello" refl refl

links :
    (after_all events (false, no_runner) ≡ (true, waiting))
    × (after_all (call op_start ∷ runs false ∷ []) (false, no_runner) ≡ (false, backing_off))
links = (refl, refl)
