-- ===== src/Services/LoginService.antt =====
-- app/services/login_service.py: QR and password logins of the seller's accounts. A password login is
-- a task, which runs the browser in a thread of its own; an event is what the event loop or the thread
-- does between two suspensions. Times are milliseconds; a session's id is the random text that it got.
pub mod Verdict
pub mod Tasks
pub mod QrSessions
mod Examples
use xianyu_manager.Dict.{Dict, contains, erase, insert, lookup}
use xianyu_manager.Prelude.{
  ◌==◌, ◌||◌, ◌&&◌, not, Bool, List, Option, String, [], false, if◌then◌else◌, none, some, true, ℕ,
  ◌∷◌, ◌+◌, suc, ltb,
}
use Prim.Native.String.{◌++◌ as ◌⊕◌}

pub data QrStatus : Type 0 where
  pending expired : QrStatus

pub record QrLoginSession : Type 0 where
  pub session_id : String
  pub qr_code_url : String
  pub qr_image_data : String
  pub created_at : ℕ
  pub expires_at : ℕ
  pub status : QrStatus
  pub result_cookie : String

pub data Status : Type 0 where
  processing verification_required success failed error cancelled : Status

pub record PasswordLoginSession : Type 0 where
  pub session_id : String
  pub account_id : String
  pub username : String
  pub refresh_mode : Bool
  pub show_browser : Bool
  pub db_path : String
  pub created_at : ℕ
  pub expires_at : ℕ
  pub status : Status
  pub message : String
  pub result_cookie : String
  pub verification_url : String
  pub qr_code_url : String
  pub screenshot_path : String
  pub verification_type : String
  pub verification_message : String

-- The coroutine `_execute_password_login`: its argument, whether it waits for the thread, and whether
-- `cancel` was called on it.
pub record Task : Type 0 where
  pub password : String
  pub started : Bool
  pub cancel_requested : Bool

-- The service, and the ids of the sessions whose browser thread runs.
pub record LoginService : Type 0 where
  pub active_sessions : Dict QrLoginSession
  pub password_sessions : Dict PasswordLoginSession
  pub background_tasks : Dict Task
  pub threads : Dict {0} Unit

abbrev pub init : LoginService
init = record { active_sessions = []; password_sessions = []; background_tasks = []; threads = [] }

-- `session.is_expired`, of both kinds of sessions.
abbrev pub is_expired : ℕ → ℕ → Bool
is_expired now expires_at = ltb expires_at now

-- The two readings of the clock make the two times.
unfoldable pub create_qr_session : String → ℕ → ℕ → LoginService → QrLoginSession × LoginService
create_qr_session session_id created now s =
    let session : QrLoginSession = record {
      session_id = session_id;
      qr_code_url = "https://oauth.m.taobao.com/login/qr/code?sessionId=" ⊕ session_id;
      qr_image_data = "";
      created_at = created;
      expires_at = now + 120000;
      status = pending;
      result_cookie = "";
    } in
    (session, record s { active_sessions = insert session_id session s.active_sessions })

unfoldable pub get_session : String → LoginService → Option QrLoginSession
get_session session_id s = lookup session_id s.active_sessions

unfoldable pub invalidate_session : String → LoginService → LoginService
invalidate_session session_id s = elim (lookup session_id s.active_sessions) [
  | none ↦ s
  | some session ↦ record s {
    active_sessions = insert session_id (record session { status = expired }) s.active_sessions;
  }
]

unfoldable pub count_live : ℕ → Dict QrLoginSession → ℕ
count_live now [] = 0
count_live now ((_, session) ∷ d) =
    let rest = count_live now d in if is_expired now session.expires_at then rest else suc rest

-- One reading of the clock serves for all sessions.
unfoldable pub active_session_count : ℕ → LoginService → ℕ
unfolding count_live
active_session_count now s = count_live now s.active_sessions

pub data LoginValidationError : Type 0 where
  credentials_required account_id_required : LoginValidationError

pub record LoginRequest : Type 0 where
  pub account_id : String
  pub username : String
  pub password : String
  pub refresh_mode : Bool
  pub show_browser : Bool
  pub db_path : String

abbrev pub new_session : String → ℕ → ℕ → LoginRequest → PasswordLoginSession
new_session session_id created now q = record {
  session_id = session_id;
  account_id = q.account_id;
  username = q.username;
  refresh_mode = q.refresh_mode;
  show_browser = q.show_browser;
  db_path = q.db_path;
  created_at = created;
  expires_at = now + 240000;
  status = processing;
  message = "login_initiated";
  result_cookie = "";
  verification_url = "";
  qr_code_url = "";
  screenshot_path = "";
  verification_type = "";
  verification_message = "";
}

abbrev pub new_task : String → Task
new_task password = record { password = password; started = false; cancel_requested = false }

-- `none` in place of an error; the session is registered and its task created.
unfoldable pub create_password_session :
    String → ℕ → ℕ → LoginRequest → LoginService → Option LoginValidationError × LoginService
create_password_session session_id created now q s =
    if q.username == "" || q.password == ""
    then (some credentials_required, s)
    else if q.account_id == ""
    then (some account_id_required, s)
    else (
      none,
      record s {
        password_sessions =
            insert session_id (new_session session_id created now q) s.password_sessions;
        background_tasks = insert session_id (new_task q.password) s.background_tasks;
      },
    )

unfoldable pub get_password_session : String → LoginService → Option PasswordLoginSession
get_password_session session_id s = lookup session_id s.password_sessions

-- `session.status in ("success", "failed", "error", "cancelled")`
abbrev pub is_terminal : Status → Bool
is_terminal processing = false
is_terminal verification_required = false
is_terminal _ = true

-- `task.cancel()`, if the task still runs.
unfoldable pub cancel_task : String → Dict Task → Dict Task
cancel_task session_id tasks = elim (lookup session_id tasks) [
  | none ↦ tasks
  | some task ↦ insert session_id (record task { cancel_requested = true }) tasks
]

abbrev pub set_status : Status → String → PasswordLoginSession → PasswordLoginSession
set_status status message session = record session { status = status; message = message }

unfoldable pub cancel_password_session : String → LoginService → Bool × LoginService
unfolding cancel_task
cancel_password_session session_id s = elim (lookup session_id s.password_sessions) [
  | none ↦ (false, s)
  | some session ↦ if is_terminal session.status then (false, s) else (
    true,
    record s {
      password_sessions =
          insert session_id (set_status cancelled "登录已取消" session) s.password_sessions;
      background_tasks = cancel_task session_id s.background_tasks;
    },
  )
]
