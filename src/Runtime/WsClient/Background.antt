-- ===== src/Runtime/WsClient/Background.antt =====
-- The task that `start_background` creates: what `run_forever` does from one wait to the next, with the
-- calls of other coroutines in between.
use xianyu_manager.Runtime.WsClient.{
  Outcome, WebSocketClient, backing_off, calculate_retry_delay, clear_stop, connect, failed_state,
  finished, is_stopped, raised, reconnecting, returned, scheduled, waiting, woken,
}
use xianyu_manager.Runtime.WsClient.Loop.{Op, apply, finish}
use xianyu_manager.Prelude.{Bool, List, [], ◌∷◌, if◌then◌else◌}

-- From the attempt to connect to the next wait, or to the `break` where a stop is asked for.
unfoldable pub attempted : Outcome → WebSocketClient
unfolding finish calculate_retry_delay
attempted (returned c) = record c { runner_task = waiting }
attempted (raised _ c) =
    if is_stopped c
    then record (finish (record c { state = failed_state })) { runner_task = finished }
    else record (calculate_retry_delay (record c { state = reconnecting })).1 {
      runner_task = backing_off;
    }

-- The `finally` clause and the test of the loop, and its next pass.
unfoldable pub resume : Bool → WebSocketClient → WebSocketClient
unfolding attempted finish
resume starts c =
    let c' = finish c in
    if is_stopped c' then record c' { runner_task = finished } else attempted (connect starts c')

-- A step of the task, from its start, from the end of the backoff, or from the stop event.
unfoldable pub run_step : Bool → WebSocketClient → WebSocketClient
unfolding attempted resume
run_step starts c = elim c.runner_task [
  | scheduled ↦ attempted (connect starts (clear_stop c))
  | backing_off ↦ resume starts c
  | woken ↦ resume starts c
  | _ ↦ c
]

-- A call of another coroutine, or a step of the task, with whether its heartbeat can be created.
pub data Event : Type 0 where
  call : Op → Event
  runs : Bool → Event

unfoldable pub step : Event → WebSocketClient → WebSocketClient
unfolding apply run_step
step (call op) c = apply op c
step (runs starts) c = run_step starts c

unfoldable pub step_all : List Event → WebSocketClient → WebSocketClient
unfolding step
step_all [] c = c
step_all (e ∷ es) c = step_all es (step e c)
