-- ===== src/Runtime/WsClient/Loop.antt =====
-- `run_forever`, with what the other coroutines do while it waits. A `Turn` says what one pass meets:
-- whether the heartbeat task can be created, and the operations until a wait is over.
use xianyu_manager.Dict.{is_some}
use xianyu_manager.Runtime.WsClient.{
  Outcome, WebSocketClient, calculate_retry_delay, clear_stop, client_of, connect, disconnect,
  failed_state, heartbeat, is_connected, is_disconnected, is_stopped, open_connection, raised,
  reconnecting, reset_reconnect_count, returned, send, set_stop, start_background,
  start_heartbeat_task, stop_background, ConnectionState, Failure, validate_config,
}
use xianyu_manager.Prelude.{
  ◌+◌, Bool, List, String, [], if◌then◌else◌, none, not, some, true, ◌||◌, ℕ, ◌∷◌, ◌≡◌, arith,
  false, Bool-cases, Option, inl, inr, refl,
}

pub data Op : Type 0 where
  op_connect : Bool → Op
  op_disconnect op_start op_stop : Op
  op_send op_heartbeat : String → Op

unfoldable pub apply : Op → WebSocketClient → WebSocketClient
apply (op_connect starts) c = client_of (connect starts c)
apply op_disconnect c = disconnect c
apply op_start c = start_background c
apply op_stop c = stop_background c
apply (op_send payload) c = client_of (send payload c)
apply (op_heartbeat mid) c = elim (heartbeat mid c) [ none ↦ c | some c' ↦ c' ]

unfoldable pub apply_all : List Op → WebSocketClient → WebSocketClient
unfolding apply
apply_all [] c = c
apply_all (op ∷ ops) c = apply_all ops (apply op c)

pub record Turn : Type 0 where
  pub starts : Bool
  pub until_stopped : List Op
  pub during_backoff : List Op

-- The `finally` clause.
unfoldable pub finish : WebSocketClient → WebSocketClient
finish c = if is_disconnected c.state then c else disconnect c

-- The `except` clause: the `break` if a stop is asked for, else the wait of the backoff.
unfoldable pub recover : List Op → WebSocketClient → WebSocketClient
unfolding apply_all
recover ops c =
    if is_stopped c
    then c
    else apply_all ops (calculate_retry_delay (record c { state = reconnecting })).1

unfoldable pub after_connect : Turn → Outcome → WebSocketClient
unfolding apply_all recover
after_connect t (returned c) = apply_all t.until_stopped c
after_connect t (raised _ c) = recover t.during_backoff (record c { state = failed_state })

unfoldable pub turn : Turn → WebSocketClient → WebSocketClient
unfolding after_connect finish
turn t c = finish (after_connect t (connect t.starts c))

-- The end of the loop after a number of passes, or a pass that the script does not describe.
pub data Run : Type 0 where
  ended : ℕ → WebSocketClient → Run
  running : Run

abbrev pub one_more : Run → Run
one_more (ended n c) = ended (n + 1) c
one_more running = running

unfoldable pub loop : List Turn → WebSocketClient → Run
unfolding turn
loop [] c = if is_stopped c then ended 0 c else running
loop (t ∷ ts) c =
    let rest = one_more (loop ts (turn t c)) in if is_stopped c then ended 0 c else rest

unfoldable pub run_forever : List Turn → WebSocketClient → Run
unfolding loop
run_forever ts c = loop ts (clear_stop c)

-- The event exists, and it is set if the client is disconnected.
abbrev IsHeld : WebSocketClient → Type 0
IsHeld c = (is_some c.stop_event ≡ true) × ((not (is_disconnected c.state) || is_stopped c) ≡ true)

apply-IsHeld : (op : Op) (c : WebSocketClient) → IsHeld c → IsHeld (apply op c)
unfolding apply connect disconnect start_background stop_background send heartbeat set_stop
    clear_stop open_connection is_stopped is_connected is_disconnected start_heartbeat_task
    reset_reconnect_count
apply-IsHeld (op_connect starts) c h = ground arith
apply-IsHeld op_disconnect c h = ground arith
apply-IsHeld op_start c h = ground arith
apply-IsHeld op_stop c h = ground arith
apply-IsHeld (op_send p) c h = ground arith
apply-IsHeld (op_heartbeat mid) c h = ground arith

apply_all-IsHeld : (ops : List Op) (c : WebSocketClient) → IsHeld c → IsHeld (apply_all ops c)
unfolding apply_all
apply_all-IsHeld [] c h = h
apply_all-IsHeld (op ∷ ops) c h = apply_all-IsHeld ops (apply op c) (apply-IsHeld op c h)

finish-is_stopped : (c : WebSocketClient) → IsHeld c → is_stopped (finish c) ≡ true
unfolding finish disconnect set_stop is_stopped is_disconnected
finish-is_stopped c h = ground arith

connected_held :
    (s : ConnectionState)
    → is_connected s ≡ true
    → (b : Bool) → (not (is_disconnected s) || b) ≡ true
unfolding is_connected is_disconnected
connected_held s e b = ground arith

-- What an attempt to connect leaves: a held client, or an exception and an event that exists.
abbrev IsTried : Outcome → Type 0
IsTried (returned c) = IsHeld c
IsTried (raised _ c) = is_some c.stop_event ≡ true

after_connect-IsHeld : (t : Turn) (o : Outcome) → IsTried o → IsHeld (after_connect t o)
unfolding after_connect recover calculate_retry_delay is_disconnected is_stopped
after_connect-IsHeld t (returned c) h = apply_all-IsHeld t.until_stopped c h
after_connect-IsHeld t (raised e c) h =
    elim (Bool-cases (is_stopped (record c { state = failed_state }))) [
      | inl b ↦ rw b (h, refl)
      | inr b ↦ rw b (
          apply_all-IsHeld t.during_backoff
            (calculate_retry_delay (record c { state = reconnecting })).1 (h, refl))
    ]

open_connection-IsTried : (starts : Bool) (c : WebSocketClient) → IsTried (open_connection starts c)
unfolding open_connection start_heartbeat_task reset_reconnect_count clear_stop is_disconnected
open_connection-IsTried true c = (refl, refl)
open_connection-IsTried false c = refl

connect-IsTried :
    (starts : Bool) (c : WebSocketClient) → c.stop_event ≡ some false → IsTried (connect starts c)
unfolding connect is_connected is_disconnected
connect-IsTried starts c h = by_config (validate_config c)
  where
    held : is_some c.stop_event ≡ true
    held = rw h refl

    by_state :
        (b : Bool)
        → is_connected c.state ≡ b
        → IsTried (if b then returned c else open_connection starts c)
    by_state true e = (held, connected_held c.state e (is_stopped c))
    by_state false e = open_connection-IsTried starts c

    by_config :
        (v : Option Failure)
        → IsTried (elim v [
          | some e ↦ raised e c
          | none ↦ if is_connected c.state then returned c else open_connection starts c
        ])
    by_config (some e) = held
    by_config none = by_state (is_connected c.state) refl

turn-is_stopped :
    (t : Turn) (c : WebSocketClient) → c.stop_event ≡ some false → is_stopped (turn t c) ≡ true
unfolding turn
turn-is_stopped t c h =
    finish-is_stopped (after_connect t (connect t.starts c))
      (after_connect-IsHeld t (connect t.starts c) (connect-IsTried t.starts c h))

loop-is_stopped :
    (ts : List Turn) (c : WebSocketClient) → is_stopped c ≡ true → loop ts c ≡ ended 0 c
unfolding loop
loop-is_stopped [] c h = rw h refl
loop-is_stopped (t ∷ ts) c h = rw h refl

-- The connection loop ends after exactly one pass, whether its attempt to connect succeeds or fails,
-- whatever the other coroutines do while it waits: no later pass of the script is run.
pub run_forever-once :
    (t : Turn) (ts : List Turn) (c : WebSocketClient)
    → run_forever (t ∷ ts) c ≡ ended 1 (turn t (clear_stop c))
unfolding run_forever loop clear_stop is_stopped
run_forever-once t ts c =
    rw (loop-is_stopped ts (turn t (clear_stop c)) (turn-is_stopped t (clear_stop c) refl)) refl
