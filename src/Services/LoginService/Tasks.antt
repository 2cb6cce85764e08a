-- ===== src/Services/LoginService/Tasks.antt =====
-- app/services/login_service.py: `_execute_password_login`, from its start to its end, and what the
-- thread of the browser does beside it. What follows
-- the thread's result is in Verdict.
pub mod Machine
pub mod Projections
pub mod Isolation
pub mod Histories
pub mod Consistency
pub mod Endings
pub mod Liveness
pub mod Cancelling
pub mod Successes
mod Examples
use xianyu_manager.Db.{Storage}
use xianyu_manager.Services.LoginService.Verdict.{Outcome, finish, raise_in}
use xianyu_manager.Services.LoginService.{
  LoginService, PasswordLoginSession, cancelled, error, failed, set_status, success,
  verification_required,
}
use xianyu_manager.Runtime.AccountRegistry.{AccountRegistry, change}
use xianyu_manager.Runtime.MessagePipeline.Values.{decimal}
use xianyu_manager.Dict.{Dict, contains, erase, insert, lookup}
use xianyu_manager.Prelude.{
  ◌==◌, ◌||◌, ◌&&◌, not, Bool, List, Option, String, [], false, if◌then◌else◌, none, some, true,
  ◌∷◌, length,
}
use Prim.Native.String.{◌++◌ as ◌⊕◌}

pub record World : Type 0 where
  pub service : LoginService
  pub storage : Storage

-- What the callback is called with.
pub record Verification : Type 0 where
  pub message : String
  pub screenshot_path_or_none : Option String
  pub frame_url : Option String
  pub screenshot_path : Option String
  pub verification_type : Option String

-- `x or default`, for a text or `None`.
abbrev pub or_text : Option String → String → String
or_text none default = default
or_text (some x) default = if x == "" then default else x

-- `_on_verification_required`
unfoldable pub on_verification_required : Verification → PasswordLoginSession → PasswordLoginSession
on_verification_required v session =
    let actual_url = or_text v.frame_url "" in
    let actual_screenshot = or_text v.screenshot_path (or_text v.screenshot_path_or_none "") in
    record session {
      status = verification_required;
      message = if v.message == "" then "需要身份验证" else v.message;
      verification_url = actual_url;
      screenshot_path = actual_screenshot;
      verification_type = elim v.verification_type [ none ↦ "unknown" | some t ↦ t ];
      verification_message = v.message;
    }

-- The change of a session that the service holds.
unfoldable pub modify :
    String → (PasswordLoginSession → PasswordLoginSession) → LoginService → LoginService
modify session_id f s = elim (lookup session_id s.password_sessions) [
  | none ↦ s
  | some session ↦ record s {
    password_sessions = insert session_id (f session) s.password_sessions;
  }
]

-- The task's first step: it gives the work to a thread, or ends by the exception of the import. One
-- that was cancelled before never runs.
unfoldable pub begin : String → Option String → LoginService → LoginService
unfolding modify raise_in
begin session_id import_error s = elim (lookup session_id s.background_tasks) [
  | none ↦ s
  | some task ↦ if task.started || task.cancel_requested then s else elim import_error [
    | some exc ↦
        modify session_id (raise_in exc)
          (record s { background_tasks = erase session_id s.background_tasks })
    | none ↦
        modify session_id (λ session. record session { message = "正在启动浏览器并执行登录..." })
          (record s {
            background_tasks =
                insert session_id (record task { started = true }) s.background_tasks;
            threads = insert session_id tt s.threads;
          })
  ]
]

-- `CancelledError` reaches the task: inside the `try`, if it had started.
unfoldable pub deliver_cancel : String → LoginService → LoginService
unfolding modify
deliver_cancel session_id s = elim (lookup session_id s.background_tasks) [
  | none ↦ s
  | some task ↦
      if task.cancel_requested
      then (let rest = record s { background_tasks = erase session_id s.background_tasks } in
          if task.started then modify session_id (set_status cancelled "登录任务已取消") rest else rest)
      else s
]

-- The thread calls back.
unfoldable pub call_back : String → Verification → LoginService → LoginService
unfolding modify on_verification_required
call_back session_id v s =
    if contains session_id s.threads then modify session_id (on_verification_required v) s else s

-- The thread ends; a task that waits for it and is not cancelled goes on to its end. A cancellation
-- between the two is one that came before.
unfoldable pub thread_ends : String → Bool → Outcome → World → World
unfolding modify finish
thread_ends session_id db_ok outcome w =
    let s = record w.service { threads = erase session_id w.service.threads } in
    if contains session_id w.service.threads
    then elim (lookup session_id s.background_tasks) [
      | none ↦ record w { service = s }
      | some task ↦
          if task.started && not task.cancel_requested
          then elim (lookup session_id s.password_sessions) [
            | none ↦ record w { service = s }
            | some session ↦
                let (session', storage) = finish db_ok task.password outcome session w.storage in
                record {
                  service = record s {
                    password_sessions = insert session_id session' s.password_sessions;
                    background_tasks = erase session_id s.background_tasks;
                  };
                  storage = storage;
                }
          ]
          else record w { service = s }
    ]
    else w
