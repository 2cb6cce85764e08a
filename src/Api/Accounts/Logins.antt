-- ===== src/Api/Accounts/Logins.antt =====
-- app/api/routers/account_compat.py: the requests on QR and password logins of accounts, over
-- Services/LoginService. The container has the service.
pub mod Outcomes
mod Examples
use xianyu_manager.Api.Accounts.{no_account}
use xianyu_manager.Api.{Answer, answered, not_found, refused, unprocessable}
use xianyu_manager.Db.{AccountRow}
use xianyu_manager.Dict.{Dict, lookup}
use xianyu_manager.Services.LoginService.{
  LoginRequest, LoginService, LoginValidationError, PasswordLoginSession, QrStatus, Status,
  account_id_required, cancel_password_session, cancelled, create_password_session,
  create_qr_session, credentials_required, error, expired, failed, get_password_session,
  get_session, is_expired, new_session, pending, processing, success, verification_required,
}
use xianyu_manager.Text.{strip}
use xianyu_manager.Prelude.{
  Bool, Option, String, false, if◌then◌else◌, none, not, some, ℕ, suc, ◌==◌, ◌&&◌, ◌||◌, ◌==ℕ◌,
}
use Prim.Native.Char.{code}
use Prim.Native.String

-- The requests and the responses of app/api/schemas.py, without `success`, which is always true.
pub record QrLoginStatusResponse : Type 0 where
  pub session_id : String
  pub status : String
  pub qr_code_url : String
  pub qr_image_data : String
  pub expires_at : ℕ
  pub result_cookie : String

pub record PasswordLoginRequest : Type 0 where
  pub account_id : String
  pub account : Option String
  pub username : Option String
  pub password : Option String
  pub refresh_mode : Bool
  pub show_browser : Bool

pub record PasswordLoginCreateResponse : Type 0 where
  pub session_id : String
  pub status : String
  pub message : String

pub record PasswordLoginStatusResponse : Type 0 where
  pub session_id : String
  pub status : String
  pub message : String
  pub result_cookie : String
  pub cookie_valid : Bool
  pub cookie_count : ℕ
  pub verification_url : String
  pub qr_code_url : String
  pub screenshot_path : String
  pub verification_type : String
  pub verification_message : String

abbrev pub qr_status_text : QrStatus → String
qr_status_text pending = "pending"
qr_status_text expired = "expired"

abbrev pub status_text : Status → String
status_text processing = "processing"
status_text verification_required = "verification_required"
status_text success = "success"
status_text failed = "failed"
status_text error = "error"
status_text cancelled = "cancelled"

-- `value or default`, and `value if value is not None else default`
abbrev pub given_or : Option String → String → String
given_or none default = default
given_or (some text) default = if text == "" then default else text

abbrev pub set_or : Option String → String → String
set_or none default = default
set_or (some text) default = text

unfoldable pub resolve_password_credentials :
    AccountRow → PasswordLoginRequest → Answer (String × String)
resolve_password_credentials r q =
    let username = strip (given_or q.account (given_or q.username r.username)) in
    let password = strip (set_or q.password r.password) in
    if q.refresh_mode && (r.username == "" || r.password == "")
    then refused (unprocessable "stored username/password are required for refresh mode")
    else if username == "" || password == ""
    then refused (unprocessable "username/password are required for password login")
    else answered (username, password)

unfoldable pub create_qr_login_session :
    String → ℕ → ℕ → LoginService → Answer QrLoginStatusResponse × LoginService
unfolding create_qr_session
create_qr_login_session session_id created now s =
    let (session, s') = create_qr_session session_id created now s in
    (
      answered (record {
        session_id = session.session_id;
        status = "pending";
        qr_code_url = session.qr_code_url;
        qr_image_data = session.qr_image_data;
        expires_at = session.expires_at;
        result_cookie = "";
      }),
      s',
    )

unfoldable pub get_qr_login_status : String → ℕ → LoginService → Answer QrLoginStatusResponse
unfolding get_session
get_qr_login_status session_id now s = elim (get_session session_id s) [
  | none ↦ refused (not_found "QR login session not found")
  | some session ↦ answered (record {
    session_id = session.session_id;
    status = if is_expired now session.expires_at then "expired" else qr_status_text session.status;
    qr_code_url = session.qr_code_url;
    qr_image_data = session.qr_image_data;
    expires_at = session.expires_at;
    result_cookie = session.result_cookie;
  })
]

abbrev pub validation_text : LoginValidationError → String
validation_text credentials_required = "username and password are required for password login"
validation_text account_id_required = "account_id is required"

-- The arguments of `create_password_session`.
abbrev pub login_request : String → String → String → PasswordLoginRequest → LoginRequest
login_request db_path username password q = record {
  account_id = q.account_id;
  username = username;
  password = password;
  refresh_mode = q.refresh_mode;
  show_browser = q.show_browser;
  db_path = db_path;
}

-- What follows the resolved user name and password.
unfoldable pub start_login :
    String → ℕ → ℕ → LoginRequest → LoginService → Answer PasswordLoginCreateResponse × LoginService
unfolding create_password_session
start_login session_id created now q s =
    let session = new_session session_id created now q in
    let (problem, s') = create_password_session session_id created now q s in
    elim problem [
      | some e ↦ (refused (unprocessable (validation_text e)), s')
      | none ↦ (
        answered (record {
          session_id = session.session_id;
          status = status_text session.status;
          message = session.message;
        }),
        s',
      )
    ]

unfoldable pub create_password_login_session :
    String
    → ℕ
    → ℕ
    → String
    → PasswordLoginRequest
    → Dict AccountRow
    → LoginService
    → Answer PasswordLoginCreateResponse × LoginService
unfolding resolve_password_credentials start_login
create_password_login_session session_id created now db_path q rows s =
    if q.account_id == ""
    then (refused (unprocessable "String should have at least 1 character"), s)
    else elim (lookup q.account_id rows) [
      | none ↦ (no_account, s)
      | some r ↦ elim (resolve_password_credentials r q) [
        | refused e ↦ (refused e, s)
        | answered (username, password) ↦
            start_login session_id created now (login_request db_path username password q) s
      ]
    ]

-- `text.count("=")`
unfoldable pub count_equals : String → ℕ
count_equals String.[] = 0
count_equals (String.◌∷◌ c text) =
    let rest = count_equals text in if code c ==ℕ 61 then suc rest else rest

unfoldable pub get_password_login_status :
    String → ℕ → LoginService → Answer PasswordLoginStatusResponse
unfolding get_password_session count_equals
get_password_login_status session_id now s = elim (get_password_session session_id s) [
  | none ↦ refused (not_found "Password login session not found")
  | some session ↦ answered (record {
    session_id = session.session_id;
    status = if is_expired now session.expires_at then "expired" else status_text session.status;
    message = session.message;
    result_cookie = session.result_cookie;
    cookie_valid = not (session.result_cookie == "") && status_text session.status == "success";
    cookie_count = count_equals session.result_cookie;
    verification_url = session.verification_url;
    qr_code_url = session.qr_code_url;
    screenshot_path = session.screenshot_path;
    verification_type = session.verification_type;
    verification_message = session.verification_message;
  })
]

-- The answer of a cancellation: the other fields have their defaults.
abbrev pub cancel_response : Option PasswordLoginSession → Answer PasswordLoginStatusResponse
cancel_response none = refused (not_found "Password login session not found")
cancel_response (some session) = answered (record {
  session_id = session.session_id;
  status = status_text session.status;
  message = session.message;
  result_cookie = "";
  cookie_valid = false;
  cookie_count = 0;
  verification_url = "";
  qr_code_url = "";
  screenshot_path = "";
  verification_type = "";
  verification_message = "";
})

-- Whether or not the session was cancelled, the answer tells it as it is afterwards.
unfoldable pub cancel_password_login_session :
    String → LoginService → Answer PasswordLoginStatusResponse × LoginService
unfolding cancel_password_session get_password_session
cancel_password_login_session session_id s =
    let s' = (cancel_password_session session_id s).1 in
    (cancel_response (get_password_session session_id s'), s')
