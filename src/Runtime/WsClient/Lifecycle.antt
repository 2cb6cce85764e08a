-- ===== src/Runtime/WsClient/Lifecycle.antt =====
-- When a client sends: its link and its background task over any calls and steps.
use xianyu_manager.Text.{strip}
use xianyu_manager.Dict.{is_some}
use xianyu_manager.Runtime.WsClient.{
  Runner, WebSocketClient, backing_off, calculate_retry_delay, cannot_send, clear_stop, client_of,
  connect, disconnect, finished, fresh, heartbeat, is_blank, is_connected, is_disconnected, is_live,
  is_stopped, no_runner, open_connection, raised, reset_reconnect_count, returned, scheduled, send,
  set_stop, start_background, start_heartbeat_task, stop_background, validate_config, waiting, wake,
  woken, ws_url,
}
use xianyu_manager.Runtime.WsClient.Loop.{
  apply, finish, op_connect, op_disconnect, op_heartbeat, op_send, op_start, op_stop,
}
use xianyu_manager.Runtime.WsClient.Background.{
  Event, attempted, call, resume, run_step, runs, step, step_all,
}
use xianyu_manager.Prelude.{
  Bool, List, Option, String, [], arith, false, if◌then◌else◌, none, not, refl, some, subst, true,
  ◌||◌, ◌∷◌, ◌≡◌,
}

-- Whether the client is linked, and where its background task is.
abbrev pub Link : Type 0
Link = Bool × Runner

abbrev pub after_run : Bool → Link → Link
after_run starts (linked, scheduled) =
    if linked || starts then (true, waiting) else (false, backing_off)
after_run starts (linked, backing_off) = (false, finished)
after_run starts (linked, woken) = (false, finished)
after_run starts (linked, r) = (linked, r)

-- What an event makes of the link.
abbrev pub after : Event → Link → Link
after (call (op_connect _)) (linked, r) = (true, r)
after (call op_disconnect) (linked, r) = (false, wake r)
after (call op_start) (linked, r) = (linked, if is_live r then r else scheduled)
after (call op_stop) (linked, r) = (false, no_runner)
after (call (op_send _)) l = l
after (call (op_heartbeat _)) l = l
after (runs starts) l = after_run starts l

abbrev pub after_all : List Event → Link → Link
after_all [] l = l
after_all (e ∷ es) l = after_all es (after e l)

abbrev is_waiting : Runner → Bool
is_waiting waiting = true
is_waiting backing_off = true
is_waiting woken = true
is_waiting _ = false

abbrev stop_or_none : Option Bool → Bool
stop_or_none none = true
stop_or_none (some b) = b

-- The link of the client; the transport exists while it is connected, the heartbeat runs only then, a
-- task that waits has its event, and the event is set where the client is disconnected.
abbrev IsKept : WebSocketClient → Type 0
IsKept c =
    ((not (is_connected c.state) || c.ws) ≡ true)
    × ((not c.heartbeat_task || is_connected c.state) ≡ true)
    × ((not (is_waiting c.runner_task) || is_some c.stop_event) ≡ true)
    × ((not (is_disconnected c.state) || stop_or_none c.stop_event) ≡ true)

abbrev HasLink : Link → WebSocketClient → Type 0
HasLink l c = (is_connected c.state ≡ l.0) × (c.runner_task ≡ l.1)

abbrev IsUsable : WebSocketClient → Type 0
IsUsable c = (is_blank c.account_id ≡ false) × (is_blank c.cookie_str ≡ false)

abbrev IsTracked : Link → WebSocketClient → Type 0
IsTracked l c = IsUsable c × HasLink l c × IsKept c

ws_url_given : is_blank ws_url ≡ false
unfolding is_blank strip
ws_url_given = refl

validate_config-given : (c : WebSocketClient) → IsUsable c → validate_config c ≡ none
unfolding validate_config
validate_config-given c h = rw (h.0, h.1, ws_url_given) refl

connect-IsTracked :
    (starts : Bool) (l : Link) (c : WebSocketClient)
    → IsTracked l c
    → IsTracked (true, l.1) (client_of (connect starts c))
unfolding connect open_connection start_heartbeat_task reset_reconnect_count clear_stop is_connected
    is_disconnected
connect-IsTracked starts l c h = ground (arith, validate_config-given c h.0)

disconnect-IsTracked :
    (l : Link) (c : WebSocketClient) → IsTracked l c → IsTracked (false, wake l.1) (disconnect c)
unfolding disconnect set_stop is_connected is_disconnected
disconnect-IsTracked l c h = ground arith

stop-IsTracked :
    (l : Link) (c : WebSocketClient)
    → IsTracked l c
    → IsTracked (false, no_runner) (stop_background c)
unfolding stop_background disconnect set_stop is_connected is_disconnected
stop-IsTracked l c h = ground arith

start-IsTracked :
    (l : Link) (c : WebSocketClient)
    → IsTracked l c
    → IsTracked (l.0, if is_live l.1 then l.1 else scheduled) (start_background c)
unfolding start_background
start-IsTracked l c h = ground arith

send-IsTracked :
    (p : String) (l : Link) (c : WebSocketClient)
    → IsTracked l c
    → IsTracked l (client_of (send p c))
unfolding send
send-IsTracked p l c h = ground arith

heartbeat-IsTracked :
    (mid : String) (l : Link) (c : WebSocketClient)
    → IsTracked l c
    → IsTracked l (apply (op_heartbeat mid) c)
unfolding apply heartbeat
heartbeat-IsTracked mid l c h = ground arith

-- The `finally` clause of a woken task ends the loop.
resume-IsTracked :
    (starts : Bool) (l : Link) (c : WebSocketClient)
    → IsTracked l c
    → is_waiting l.1 ≡ true
    → IsTracked (false, finished) (resume starts c)
unfolding resume finish disconnect set_stop is_connected is_disconnected is_stopped
resume-IsTracked starts l c h w = ground arith

attempted-IsTracked :
    (starts : Bool) (linked : Bool) (c : WebSocketClient)
    → IsTracked (linked, scheduled) c
    → IsTracked
        (if linked || starts then (true, waiting) else (false, backing_off))
        (attempted (connect starts (clear_stop c)))
unfolding attempted connect open_connection start_heartbeat_task reset_reconnect_count clear_stop
    is_connected is_disconnected is_stopped calculate_retry_delay
attempted-IsTracked starts linked c h = ground (arith, validate_config-given (clear_stop c) h.0)

run-IsTracked :
    (starts : Bool) (l : Link) (c : WebSocketClient)
    → IsTracked l c
    → IsTracked (after_run starts l) (run_step starts c)
unfolding run_step
run-IsTracked starts (b, r) c (usable, (link, task), kept) =
    subst (λ x. IsTracked (after_run starts (b, x)) (run_step starts c)) task
      (by_task c.runner_task refl)
  where
    by_task :
        (x : Runner)
        → c.runner_task ≡ x
        → IsTracked (after_run starts (b, x)) (elim x as (λ _. WebSocketClient) [
          | scheduled ↦ attempted (connect starts (clear_stop c))
          | backing_off ↦ resume starts c
          | woken ↦ resume starts c
          | _ ↦ c
        ])
    by_task scheduled e = attempted-IsTracked starts b c (usable, (link, e), kept)
    by_task backing_off e =
        resume-IsTracked starts (b, backing_off) c (usable, (link, e), kept) refl
    by_task woken e = resume-IsTracked starts (b, woken) c (usable, (link, e), kept) refl
    by_task no_runner e = (usable, (link, e), kept)
    by_task waiting e = (usable, (link, e), kept)
    by_task finished e = (usable, (link, e), kept)

step-IsTracked :
    (e : Event) (l : Link) (c : WebSocketClient) → IsTracked l c → IsTracked (after e l) (step e c)
unfolding step apply
step-IsTracked (call (op_connect starts)) l c h = connect-IsTracked starts l c h
step-IsTracked (call op_disconnect) l c h = disconnect-IsTracked l c h
step-IsTracked (call op_start) l c h = start-IsTracked l c h
step-IsTracked (call op_stop) l c h = stop-IsTracked l c h
step-IsTracked (call (op_send p)) l c h = send-IsTracked p l c h
step-IsTracked (call (op_heartbeat mid)) l c h = heartbeat-IsTracked mid l c h
step-IsTracked (runs starts) l c h = run-IsTracked starts l c h

step_all-IsTracked :
    (es : List Event) (l : Link) (c : WebSocketClient)
    → IsTracked l c
    → IsTracked (after_all es l) (step_all es c)
unfolding step_all
step_all-IsTracked [] l c h = h
step_all-IsTracked (e ∷ es) l c h =
    step_all-IsTracked es (after e l) (step e c) (step-IsTracked e l c h)

-- After any calls and steps of the background task on a new client whose account and cookies are not
-- blank, a payload is sent exactly if the client is linked, else `send` raises and changes nothing. It is
-- linked by `connect`, and by the first step of a started task, unless this finds no link and cannot
-- create the heartbeat; and unlinked by `disconnect`, by `stop_background`, and by the step of the task
-- that follows its stop event or its backoff, which also ends the task. `start_background` starts none
-- while there is one that is not done.
pub send-step_all :
    (es : List Event) (account_id cookie_str payload : String)
    → is_blank account_id ≡ false
    → is_blank cookie_str ≡ false
    → let c = step_all es (fresh account_id cookie_str) in
      let (linked, r) = after_all es (false, no_runner) in
      (c.runner_task ≡ r)
      × (send payload c ≡ (
          if linked
          then returned (record c { last_sent_payload = some payload })
          else raised cannot_send c))
unfolding send is_connected is_disconnected
send-step_all es account_id cookie_str payload h k =
    let (usable, (link, task), kept) =
      step_all-IsTracked es (false, no_runner) (fresh account_id cookie_str)
        ((h, k), (refl, refl), (refl, refl, refl, refl)) in
    (task, ground (arith, link, kept.0))
