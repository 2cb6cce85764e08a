-- ===== src/Services/LoginService/Examples.antt =====
-- QR sessions and requests, and the theorems at them.
use xianyu_manager.Auth.Login.{answer}
use xianyu_manager.Dict.{insert, lookup}
use xianyu_manager.Services.LoginService.QrSessions.{
  active_session_count-invalidate_session, create_password_session-accepts, IsComplete,
}
use xianyu_manager.Services.LoginService.{
  LoginRequest, LoginService, active_session_count, count_live, create_password_session,
  create_qr_session, credentials_required, get_password_session, init, invalidate_session,
  new_session, new_task, cancel_password_session, cancel_task,
}
use xianyu_manager.Prelude.{String, false, none, refl, some, true, ◌≡◌, ◌≢◌, ◌↔◌}

abbrev two_sessions : LoginService
unfolding create_qr_session insert
two_sessions = (create_qr_session "b" 5000 5000 (create_qr_session "a" 0 0 init).1).1

counts :
    (active_session_count 120000 two_sessions ≡ 2)
    × (active_session_count 120001 two_sessions ≡ 1)
    × (active_session_count 125001 two_sessions ≡ 0)
unfolding active_session_count count_live two_sessions
counts = (refl, refl, refl)

active_session_count-invalidate_session_example :
    active_session_count 1000 (invalidate_session "a" two_sessions) ≡ 2
unfolding active_session_count count_live two_sessions
active_session_count-invalidate_session_example =
    active_session_count-invalidate_session 1000 "a" two_sessions

abbrev request : LoginRequest
request = record {
  account_id = "shop";
  username = "u";
  password = "p";
  refresh_mode = false;
  show_browser = false;
  db_path = "data.db";
}

refused_request :
    create_password_session "x" 0 0 (record request { password = "" }) init
    ≡ (some credentials_required, init)
unfolding create_password_session
refused_request = refl

cancels_once :
    let s = (create_password_session "x" 0 0 request init).1 in
    let s' = (cancel_password_session "x" s).1 in
    ((cancel_password_session "x" s).0 ≡ true)
    × ((cancel_password_session "x" s').0 ≡ false)
    × ((cancel_password_session "y" s).0 ≡ false)
unfolding create_password_session cancel_password_session cancel_task insert lookup
cancels_once = (refl, refl, refl)

create_password_session-accepts_example :
    let (answer, s') = create_password_session "x" 0 0 request init in
    ((answer ≡ none) ↔ IsComplete request)
    × ((answer ≢ none) → s' ≡ init)
    × (IsComplete request
        → (get_password_session "x" s' ≡ some (new_session "x" 0 0 request))
          × (lookup "x" s'.background_tasks ≡ some (new_task "p")))
    × ((j : String) → j ≢ "x" → get_password_session j s' ≡ get_password_session j init)
create_password_session-accepts_example = create_password_session-accepts "x" 0 0 request init
