-- ===== src/Api/Accounts/Logins/Outcomes.antt =====
-- app/api/routers/account_compat.py: which password logins start, and what a cancellation tells.
use xianyu_manager.Api.Accounts.Logins.{
  PasswordLoginRequest, cancel_password_login_session, create_password_login_session, given_or,
  login_request, resolve_password_credentials, set_or, start_login,
}
use xianyu_manager.Api.{Answer, answered, refused}
use xianyu_manager.Db.{AccountRow}
use xianyu_manager.Dict.{Dict, is_some, lookup}
use xianyu_manager.Dict.Laws.{lookup-insert_self}
use xianyu_manager.Services.LoginService.{
  LoginService, PasswordLoginSession, cancel_password_session, cancelled, create_password_session,
  get_password_session, is_terminal, new_session, new_task, set_status,
}
use xianyu_manager.Text.{strip}
use xianyu_manager.Prelude.{
  Bool, Option, String, arith, false, none, not, refl, some, true, ℕ, ◌==◌, ◌&&◌, ◌||◌, ◌≡◌,
}

abbrev pub is_answered {ℓ} : {A : Type ℓ} → Answer A → Bool
is_answered (refused e) = false
is_answered (answered a) = true

-- The user name and the password of a login, by the request and the row.
abbrev pub login_username : PasswordLoginRequest → AccountRow → String
login_username q r = strip (given_or q.account (given_or q.username r.username))

abbrev pub login_password : PasswordLoginRequest → AccountRow → String
login_password q r = strip (set_or q.password r.password)

-- Whether a login of the account with this row may start.
abbrev pub can_start : PasswordLoginRequest → Option AccountRow → Bool
can_start q none = false
can_start q (some r) =
    not (q.account_id == "")
    && not (login_username q r == "")
    && not (login_password q r == "")
    && (not q.refresh_mode || (not (r.username == "") && not (r.password == "")))

-- A request for a password login is answered with a session exactly if its account has a row and there
-- are a user name and a password that are not blank, both stored ones too where the request refreshes; and
-- then the service has the new session and the task, with what the request or else the row gives. Every
-- other request leaves the service as it was. No request fails in the service's own checks.
pub create_password_login_session-starts :
    (id : String) (c now : ℕ) (db_path : String) (q : PasswordLoginRequest) (rows : Dict AccountRow)
    (s : LoginService)
    → let (answer, s') = create_password_login_session id c now db_path q rows s in
      (is_answered answer ≡ can_start q (lookup q.account_id rows))
      × ((is_answered answer ≡ false) → s' ≡ s)
      × ((r : AccountRow)
          → lookup q.account_id rows ≡ some r
          → is_answered answer ≡ true
          → (get_password_session id s'
              ≡ some (
                  new_session id c now
                    (login_request db_path (login_username q r) (login_password q r) q)))
            × (lookup id s'.background_tasks ≡ some (new_task (login_password q r))))
unfolding create_password_login_session resolve_password_credentials start_login
    create_password_session get_password_session
create_password_login_session-starts id c now db_path q rows s = (
  ground arith,
  λ h. ground arith,
  λ r h k.
      let q' = login_request db_path (login_username q r) (login_password q r) q in
      ground (
        arith,
        lookup-insert_self id (new_session id c now q') s.password_sessions,
        lookup-insert_self id (new_task (login_password q r)) s.background_tasks,
      ),
)

-- Whether a session is there and has ended.
abbrev pub has_ended : Option PasswordLoginSession → Bool
has_ended none = false
has_ended (some session) = is_terminal session.status

-- A request to cancel a login is answered with its session exactly if the service has it; the session
-- has ended then, and a second request is answered alike and changes nothing.
pub cancel_password_login_session-ends :
    (id : String) (s : LoginService)
    → let (answer, s') = cancel_password_login_session id s in
      (is_answered answer ≡ is_some (get_password_session id s))
      × (has_ended (get_password_session id s') ≡ is_answered answer)
      × (cancel_password_login_session id s' ≡ (answer, s'))
unfolding cancel_password_login_session cancel_password_session get_password_session
cancel_password_login_session-ends id s = by_lookup (lookup id s.password_sessions) refl
  where
    by_lookup :
        (o : Option PasswordLoginSession)
        → lookup id s.password_sessions ≡ o
        → let (answer, s') = cancel_password_login_session id s in
          (is_answered answer ≡ is_some (get_password_session id s))
          × (has_ended (get_password_session id s') ≡ is_answered answer)
          × (cancel_password_login_session id s' ≡ (answer, s'))
    by_lookup none h = ground arith
    by_lookup (some session) h =
        ground
          (arith, lookup-insert_self id (set_status cancelled "登录已取消" session) s.password_sessions)
