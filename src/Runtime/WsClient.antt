-- ===== src/Runtime/WsClient.antt =====
-- app/runtime/ws_client.py: the connection of one account. The transport is a stub in the source, a
-- flag here. The cancellation of a task is taken to be over before the next step. The heartbeat task is a
-- flag that says whether it runs; the task of the loop is at one of its waits, and takes its steps in
-- Background. Texts that are only logged are left out, and an exception is a `raised`, with the client as it
-- is then.
pub mod Loop
pub mod Background
pub mod Lifecycle
pub mod Backoff
mod Examples
use xianyu_manager.Prelude.{
  ◌&&◌, ◌+◌, ◌==◌, Bool, Option, String, ◌^◌, false, if◌then◌else◌, min, none, not, some, true,
  ◌||◌, ℕ,
}
use xianyu_manager.Text.{strip}

pub data ConnectionState : Type 0 where
  disconnected connecting connected reconnecting failed_state : ConnectionState

-- Where the task of `start_background` is in `run_forever`: it has not started, waits for the stop event,
-- waits for the backoff, has an event or a timeout to resume from, or is done.
pub data Runner : Type 0 where
  no_runner scheduled waiting backing_off woken finished : Runner

abbrev pub is_live : Runner → Bool
is_live no_runner = false
is_live finished = false
is_live _ = true

-- The event wakes those that wait for it.
abbrev pub wake : Runner → Runner
wake waiting = woken
wake backing_off = woken
wake r = r

pub record WebSocketClient : Type 0 where
  pub account_id : String
  pub cookie_str : String
  pub state : ConnectionState
  pub ws : Bool
  pub stop_event : Option Bool
  pub heartbeat_task : Bool
  pub runner_task : Runner
  pub reconnect_count : ℕ
  pub last_sent_payload : Option String
  pub last_heartbeat_payload : Option String

pub data Failure : Type 0 where
  config_error cannot_send task_error : Failure

-- Whether a method returns or raises, with the client that it leaves.
pub data Outcome : Type 0 where
  returned : WebSocketClient → Outcome
  raised : Failure → WebSocketClient → Outcome

abbrev pub client_of : Outcome → WebSocketClient
client_of (returned c) = c
client_of (raised _ c) = c

abbrev pub ws_url : String
ws_url = "wss://wss-goofish.dingtalk.com/"

abbrev pub heartbeat_interval : ℕ
heartbeat_interval = 15

abbrev pub max_reconnect_delay : ℕ
max_reconnect_delay = 32

-- `not s or not s.strip()`
unfoldable pub is_blank : String → Bool
unfolding strip
is_blank s = s == "" || strip s == ""

unfoldable pub validate_config : WebSocketClient → Option Failure
validate_config c =
    if is_blank c.account_id || is_blank c.cookie_str || is_blank ws_url
    then some config_error
    else none

abbrev pub fresh : String → String → WebSocketClient
fresh account_id cookie_str = record {
  account_id = account_id;
  cookie_str = cookie_str;
  state = disconnected;
  ws = false;
  stop_event = none;
  heartbeat_task = false;
  runner_task = no_runner;
  reconnect_count = 0;
  last_sent_payload = none;
  last_heartbeat_payload = none;
}

-- The constructor; `none` is its `WebSocketConfigError`.
unfoldable pub init : String → String → Option WebSocketClient
unfolding validate_config
init account_id cookie_str = elim (validate_config (fresh account_id cookie_str)) [
  | none ↦ some (fresh account_id cookie_str)
  | some _ ↦ none
]

-- `stop_event.set()` on an event that was created, and `self._get_stop_event().clear()`.
unfoldable pub set_stop : WebSocketClient → WebSocketClient
set_stop c = elim c.stop_event [
  | none ↦ c
  | some _ ↦ record c { stop_event = some true; runner_task = wake c.runner_task }
]

unfoldable pub clear_stop : WebSocketClient → WebSocketClient
clear_stop c = record c { stop_event = some false }

unfoldable pub is_stopped : WebSocketClient → Bool
is_stopped c = elim c.stop_event [ none ↦ false | some b ↦ b ]

unfoldable pub reset_reconnect_count : WebSocketClient → WebSocketClient
reset_reconnect_count c = record c { reconnect_count = 0 }

-- The delay in seconds.
unfoldable pub calculate_retry_delay : WebSocketClient → ℕ × WebSocketClient
calculate_retry_delay c = (
  min (2 ^ c.reconnect_count) max_reconnect_delay,
  record c { reconnect_count = c.reconnect_count + 1 },
)

unfoldable pub is_connected : ConnectionState → Bool
is_connected connected = true
is_connected _ = false

unfoldable pub is_disconnected : ConnectionState → Bool
is_disconnected disconnected = true
is_disconnected _ = false

-- `self._start_heartbeat_task()`, where `starts` says whether the task could be created.
unfoldable pub start_heartbeat_task : Bool → WebSocketClient → Outcome
start_heartbeat_task starts c =
    if starts
    then returned (record c { heartbeat_task = true })
    else raised task_error (record c { heartbeat_task = false })

unfoldable pub open_connection : Bool → WebSocketClient → Outcome
unfolding clear_stop reset_reconnect_count start_heartbeat_task
open_connection starts c =
    start_heartbeat_task starts
      (reset_reconnect_count (record (clear_stop c) { ws = true; state = connected }))

unfoldable pub connect : Bool → WebSocketClient → Outcome
unfolding validate_config is_connected open_connection
connect starts c = elim (validate_config c) [
  | some e ↦ raised e c
  | none ↦ if is_connected c.state then returned c else open_connection starts c
]

unfoldable pub disconnect : WebSocketClient → WebSocketClient
unfolding set_stop
disconnect c = record (set_stop c) { heartbeat_task = false; ws = false; state = disconnected }

-- One beat of the heartbeat loop, with a fresh `mid`; `none` where the loop ends.
unfoldable pub heartbeat : String → WebSocketClient → Option WebSocketClient
unfolding is_connected is_stopped
heartbeat mid c =
    if is_connected c.state && not (is_stopped c)
    then some (record c { last_heartbeat_payload = some mid })
    else none

-- The payload is the text that `json.dumps` makes.
unfoldable pub send : String → WebSocketClient → Outcome
unfolding is_connected
send payload c =
    if not (is_connected c.state) || not c.ws
    then raised cannot_send c
    else returned (record c { last_sent_payload = some payload })

-- The task of the loop, which Background steps, unless there is one that is not done.
unfoldable pub start_background : WebSocketClient → WebSocketClient
start_background c = if is_live c.runner_task then c else record c { runner_task = scheduled }

unfoldable pub stop_background : WebSocketClient → WebSocketClient
unfolding set_stop disconnect
stop_background c = record (disconnect (set_stop c)) { runner_task = no_runner }
