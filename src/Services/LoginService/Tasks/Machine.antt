-- ===== src/Services/LoginService/Tasks/Machine.antt =====
-- app/services/login_service.py: one password login as a machine of its own, and the service as many of
-- them side by side.
use xianyu_manager.Dict.{contains, lookup}
use xianyu_manager.Services.LoginService.Verdict.{Outcome, judge, raise_in, raised, returned}
use xianyu_manager.Services.LoginService.Tasks.{
  Verification, World, begin, call_back, deliver_cancel, thread_ends, on_verification_required,
}
use xianyu_manager.Services.LoginService.{
  LoginRequest, LoginService, PasswordLoginSession, Task, cancel_password_session,
  create_password_session, cancelled, is_terminal, new_session, new_task, set_status,
}
use xianyu_manager.Prelude.{
  Bool, List, Option, String, [], if◌then◌else◌, none, some, ℕ, ◌==◌, ◌∷◌, ◌&&◌, false, not, true,
  ◌||◌,
}

pub data Event : Type 0 where
  created : String → ℕ → ℕ → LoginRequest → Event
  cancel : String → Event
  started : String → Option String → Event
  cancel_delivered : String → Event
  called_back : String → Verification → Event
  thread_ended : String → Bool → Outcome → Event

abbrev pub over : (LoginService → LoginService) → World → World
over f w = record w { service = f w.service }

unfoldable pub step : Event → World → World
step (created id c n q) w = over (λ s. (create_password_session id c n q s).1) w
step (cancel id) w = over (λ s. (cancel_password_session id s).1) w
step (started id import_error) w = over (begin id import_error) w
step (cancel_delivered id) w = over (deliver_cancel id) w
step (called_back id v) w = over (call_back id v) w
step (thread_ended id db_ok outcome) w = thread_ends id db_ok outcome w

unfoldable pub run : List Event → World → World
run [] w = w
run (e ∷ es) w = run es (step e w)

-- What the service holds of one login.
pub record Login : Type 0 where
  pub session : Option PasswordLoginSession
  pub task : Option Task
  pub thread : Bool

unfoldable pub login_of : String → LoginService → Login
login_of id s = record {
  session = lookup id s.password_sessions;
  task = lookup id s.background_tasks;
  thread = contains id s.threads;
}

abbrev pub mapped :
    (PasswordLoginSession → PasswordLoginSession)
    → Option PasswordLoginSession
    → Option PasswordLoginSession
mapped f none = none
mapped f (some session) = some (f session)

-- The events on one login.
abbrev pub made : String → ℕ → ℕ → LoginRequest → Login → Login
made id c n q l =
    if q.username == "" || q.password == ""
    then l
    else if q.account_id == ""
    then l
    else record l { session = some (new_session id c n q); task = some (new_task q.password) }

abbrev pub requested : Option Task → Option Task
requested none = none
requested (some task) = some (record task { cancel_requested = true })

abbrev pub stopped : Login → Login
stopped l = elim l.session [
  | none ↦ l
  | some session ↦ if is_terminal session.status then l else record l {
    session = some (set_status cancelled "登录已取消" session);
    task = requested l.task;
  }
]

abbrev pub begun : Option String → Login → Login
begun import_error l = elim l.task [
  | none ↦ l
  | some task ↦ if task.started || task.cancel_requested then l else elim import_error [
    | some exc ↦ record l { session = mapped (raise_in exc) l.session; task = none }
    | none ↦ record l {
      session = mapped (λ session. record session { message = "正在启动浏览器并执行登录..." }) l.session;
      task = some (record task { started = true });
      thread = true;
    }
  ]
]

abbrev pub thrown : Login → Login
thrown l = elim l.task [
  | none ↦ l
  | some task ↦
      if task.cancel_requested
      then if task.started
        then record l { session = mapped (set_status cancelled "登录任务已取消") l.session; task = none }
        else record l { task = none }
      else l
]

abbrev pub notified : Verification → Login → Login
notified v l =
    if l.thread then record l { session = mapped (on_verification_required v) l.session } else l

abbrev pub judged : Outcome → PasswordLoginSession → PasswordLoginSession
judged (raised exc) session = raise_in exc session
judged (returned cookies last_login_error) session = (judge cookies last_login_error session).1

abbrev pub ended : Outcome → Login → Login
ended outcome l =
    if l.thread
    then elim l.task [
      | none ↦ record l { thread = false }
      | some task ↦
          if task.started && not task.cancel_requested
          then elim l.session [
            | none ↦ record l { thread = false }
            | some session ↦ record {
              session = some (judged outcome session);
              task = none;
              thread = false;
            }
          ]
          else record l { thread = false }
    ]
    else l

abbrev pub owner : Event → String
owner (created id _ _ _) = id
owner (cancel id) = id
owner (started id _) = id
owner (cancel_delivered id) = id
owner (called_back id _) = id
owner (thread_ended id _ _) = id

unfoldable pub local : Event → Login → Login
local (created id c n q) l = made id c n q l
local (cancel _) l = stopped l
local (started _ import_error) l = begun import_error l
local (cancel_delivered _) l = thrown l
local (called_back _ v) l = notified v l
local (thread_ended _ _ outcome) l = ended outcome l

-- One login after the events that are its own.
unfoldable pub history : String → List Event → Login → Login
unfolding local
history id [] l = l
history id (e ∷ es) l = history id es (if owner e == id then local e l else l)
