-- ===== src/Services/LoginService/Tasks/Examples.antt =====
-- Runs of password logins, and the theorems at them.
use xianyu_manager.Services.LoginService.Tasks.Isolation.{run-login_of}
use xianyu_manager.Services.LoginService.Tasks.Successes.{IsEarned, run-IsEarned}
use xianyu_manager.Services.LoginService.Tasks.Liveness.{HasEnded, run-ends}
use xianyu_manager.Services.LoginService.Tasks.Cancelling.{IsWaiting, run-waits}
use xianyu_manager.Dict.{Dict, erase, insert, lookup}
use xianyu_manager.Services.LoginService.Tasks.Endings.{new_world, run-keeps_ended}
use xianyu_manager.Services.LoginService.Tasks.Machine.{
  Event, called_back, cancel, cancel_delivered, created, run, started, step, thread_ended, login_of,
  history,
}
use xianyu_manager.Db.{Storage, update_account, update_account}
use xianyu_manager.Services.LoginService.Verdict.{
  cookie_text, finish, has_any, has_cookie, judge, judge_cookies, persist_login_to_db, raised,
  returned, raise_in,
}
use xianyu_manager.Services.LoginService.Tasks.{
  Verification, begin, call_back, modify, thread_ends, deliver_cancel, on_verification_required,
}
use xianyu_manager.Services.LoginService.{
  LoginRequest, create_password_session, PasswordLoginSession, cancel_password_session, cancel_task,
  cancelled, get_password_session, success, verification_required,
}
use xianyu_manager.Prelude.{List, String, [], false, none, refl, some, true, ◌∷◌, ◌≡◌, arith}

abbrev request : LoginRequest
request = record {
  account_id = "shop";
  username = "u";
  password = "p";
  refresh_mode = false;
  show_browser = false;
  db_path = "data.db";
}

abbrev storage : Storage
storage = record {
  rows =
      (
        "shop",
        record {
          cookie_str = "old";
          username = "";
          password = "";
          notes = "mine";
          enabled = true;
          show_browser = true;
          pause_duration = 10;
        },
      )
      ∷ [];
  registry = record { accounts = [] };
}

abbrev verification : Verification
verification = record {
  message = "";
  screenshot_path_or_none = none;
  frame_url = some "https://v";
  screenshot_path = none;
  verification_type = some "face";
}

abbrev cookies : Dict String
cookies = ("unb", "7") ∷ ("t", "x") ∷ []

abbrev good_login : List Event
good_login =
    created "a" 0 0 request
    ∷ started "a" none
    ∷ called_back "a" verification
    ∷ created "b" 1 1 request
    ∷ thread_ended "a" true (returned cookies "")
    ∷ []

abbrev later : List Event
later = cancel "a" ∷ called_back "a" verification ∷ thread_ended "b" true (raised "") ∷ []

abbrev cancelled_login : List Event
cancelled_login =
    created "a" 0 0 request ∷ started "a" none ∷ cancel "a" ∷ cancel_delivered "a" ∷ []

stored :
    (lookup "shop" (run good_login (new_world storage)).storage.rows)
    ≡ some (record {
      cookie_str = "unb=7; t=x";
      username = "u";
      password = "p";
      notes = "mine";
      enabled = true;
      show_browser = false;
      pause_duration = 10;
    })
unfolding run step create_password_session begin call_back thread_ends finish judge judge_cookies
    persist_login_to_db update_account cookie_text has_any has_cookie modify insert lookup erase
stored = refl

-- The session of the login after its success.
abbrev successful : PasswordLoginSession
successful = record {
  session_id = "a";
  account_id = "shop";
  username = "u";
  refresh_mode = false;
  show_browser = false;
  db_path = "data.db";
  created_at = 0;
  expires_at = 240000;
  status = success;
  message = "登录成功，获取到 2 个有效 Cookie";
  result_cookie = "unb=7; t=x";
  verification_url = "https://v";
  qr_code_url = "";
  screenshot_path = "";
  verification_type = "face";
  verification_message = "";
}

run-login_of_example :
    login_of "a" (run good_login (new_world storage)).service
    ≡ history "a" good_login (login_of "a" (new_world storage).service)
run-login_of_example = run-login_of good_login "a" (new_world storage)

run-keeps_ended_example :
    get_password_session "a" (run later (run good_login (new_world storage))).service
    ≡ some successful
unfolding run step create_password_session begin call_back thread_ends finish judge judge_cookies
    has_any has_cookie modify insert lookup erase get_password_session cancel_password_session
    cancel_task deliver_cancel on_verification_required login_of cookie_text persist_login_to_db
    update_account raise_in
run-keeps_ended_example =
    run-keeps_ended good_login later "a" storage successful (omega arith) refl refl

run-IsEarned_example : IsEarned "a" good_login successful
unfolding run step create_password_session begin call_back thread_ends finish judge judge_cookies
    has_any has_cookie modify insert lookup erase get_password_session cancel_password_session
    cancel_task deliver_cancel on_verification_required login_of cookie_text persist_login_to_db
    update_account raise_in
run-IsEarned_example = run-IsEarned good_login "a" storage successful refl refl

waiting : PasswordLoginSession
waiting = record successful {
  status = verification_required;
  message = "需要身份验证";
  result_cookie = "";
}

run-ends_example : HasEnded (
    get_password_session "a"
      (run (started "a" none ∷ thread_ended "a" true (returned [] "") ∷ []) (
        run
          (created "a" 0 0 request ∷ started "a" none ∷ called_back "a" verification ∷ [])
          (new_world storage))).service)
unfolding waiting run step create_password_session begin call_back thread_ends finish judge
    judge_cookies has_any has_cookie modify insert lookup erase get_password_session
    cancel_password_session cancel_task deliver_cancel on_verification_required login_of cookie_text
    persist_login_to_db update_account raise_in
run-ends_example =
    run-ends (created "a" 0 0 request ∷ started "a" none ∷ called_back "a" verification ∷ []) "a"
      storage waiting none true (returned [] "") (omega arith) refl refl

cancelled_session : PasswordLoginSession
cancelled_session = record successful {
  status = cancelled;
  message = "登录任务已取消";
  result_cookie = "";
  verification_url = "";
  verification_type = "";
}

run-waits_example : IsWaiting (
    get_password_session "a"
      (run
        (called_back "a" verification ∷ thread_ended "a" true (returned cookies "") ∷ [])
        (run cancelled_login (new_world storage))).service)
unfolding cancelled_session run step create_password_session begin call_back thread_ends finish
    judge judge_cookies has_any has_cookie modify insert lookup erase get_password_session
    cancel_password_session cancel_task deliver_cancel on_verification_required login_of cookie_text
    persist_login_to_db update_account raise_in
run-waits_example =
    run-waits (thread_ended "a" true (returned cookies "") ∷ []) "a" verification
      (run cancelled_login (new_world storage)) cancelled_session (omega arith) refl refl
