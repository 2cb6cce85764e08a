-- ===== src/Api/Accounts/Logins/Examples.antt =====
-- Password logins that requests start, look at and cancel.
use xianyu_manager.Api.Accounts.Logins.{
  PasswordLoginRequest, cancel_password_login_session, count_equals, create_password_login_session,
  login_request,
}
use xianyu_manager.Api.Accounts.Logins.Outcomes.{
  can_start, cancel_password_login_session-ends, create_password_login_session-starts, has_ended,
  is_answered, login_password, login_username,
}
use xianyu_manager.Db.{AccountRow}
use xianyu_manager.Dict.{Dict, is_some, lookup}
use xianyu_manager.Services.LoginService.{
  LoginService, get_password_session, init, new_session, new_task,
}
use xianyu_manager.Text.{strip}
use xianyu_manager.Prelude.{[], false, none, refl, some, true, ◌∷◌, ◌≡◌}

abbrev anna_row : AccountRow
anna_row = record {
  cookie_str = "";
  username = " anna ";
  password = "p";
  notes = "";
  enabled = true;
  show_browser = false;
  pause_duration = 10;
}

abbrev accounts : Dict AccountRow
accounts = ("anna", anna_row) ∷ []

abbrev anna_login : PasswordLoginRequest
anna_login = record {
  account_id = "anna";
  account = some "";
  username = none;
  password = none;
  refresh_mode = true;
  show_browser = false;
}

create_password_login_session-starts_example :
    let (answer, s') = create_password_login_session "x" 0 0 "d" anna_login accounts init in
    (is_answered answer ≡ can_start anna_login (lookup "anna" accounts))
    × ((is_answered answer ≡ false) → s' ≡ init)
    × ((r : AccountRow)
        → lookup "anna" accounts ≡ some r
        → is_answered answer ≡ true
        → (get_password_session "x" s'
            ≡ some (
                new_session "x" 0 0 (
                  login_request "d"
                    (login_username anna_login r)
                    (login_password anna_login r)
                    anna_login)))
          × (lookup "x" s'.background_tasks ≡ some (new_task (login_password anna_login r))))
create_password_login_session-starts_example =
    create_password_login_session-starts "x" 0 0 "d" anna_login accounts init

abbrev started : LoginService
started = (create_password_login_session "x" 0 0 "d" anna_login accounts init).1

starts_with_stored_name :
    (is_answered (create_password_login_session "x" 0 0 "d" anna_login accounts init).0 ≡ true)
    × (login_username anna_login anna_row ≡ "anna")
unfolding create_password_login_session lookup strip
starts_with_stored_name = (refl, refl)

cancel_password_login_session-ends_example :
    let (answer, s') = cancel_password_login_session "x" started in
    (is_answered answer ≡ is_some (get_password_session "x" started))
    × (has_ended (get_password_session "x" s') ≡ is_answered answer)
    × (cancel_password_login_session "x" s' ≡ (answer, s'))
cancel_password_login_session-ends_example = cancel_password_login_session-ends "x" started

count_equals_two : count_equals "a=1; b=2" ≡ 2
unfolding count_equals
count_equals_two = refl
