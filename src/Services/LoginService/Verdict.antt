-- ===== src/Services/LoginService/Verdict.antt =====
-- app/services/login_service.py: what follows the thread's result in `_execute_password_login`, and
-- `_persist_login_to_db`. Nothing suspends the coroutine there.
use xianyu_manager.Services.LoginService.{PasswordLoginSession, error, failed, set_status, success}
use xianyu_manager.Runtime.MessagePipeline.Values.{decimal}
use xianyu_manager.Db.{Storage, set_registry_cookie, update_account}
use xianyu_manager.Dict.{Dict, lookup}
use xianyu_manager.Prelude.{
  ◌==◌, ◌||◌, not, Bool, List, String, [], false, if◌then◌else◌, none, some, true, ◌∷◌, length,
}
use Prim.Native.String.{◌++◌ as ◌⊕◌}

-- The result of the thread: an exception with its text, or the cookies with the error text of the
-- browser object; no cookies are an empty `dict`.
pub data Outcome : Type 0 where
  raised : String → Outcome
  returned : Dict String → String → Outcome

-- `bool(cookies.get(k))`
unfoldable pub has_cookie : Dict String → String → Bool
has_cookie cookies k = elim (lookup k cookies) [ none ↦ false | some v ↦ not (v == "") ]

unfoldable pub has_any : Dict String → List String → Bool
unfolding has_cookie
has_any cookies [] = false
has_any cookies (k ∷ ks) = has_cookie cookies k || has_any cookies ks

abbrev pub companion_keys : List String
companion_keys = "cookie2" ∷ "_m_h5_tk" ∷ "_m_h5_tk_enc" ∷ "sgcookie" ∷ "t" ∷ "cna" ∷ []

-- `"; ".join(f"{k}={v}" for k, v in cookies.items())`
unfoldable pub cookie_text : Dict String → String
cookie_text [] = ""
cookie_text ((k, v) ∷ []) = k ⊕ "=" ⊕ v
cookie_text ((k, v) ∷ kv ∷ d) = k ⊕ "=" ⊕ v ⊕ "; " ⊕ cookie_text (kv ∷ d)

-- Which fields are missing, for the message of a failure.
abbrev pub missing_text : Bool → String
missing_text has_companion = if has_companion then "unb" else "unb, companion cookies"

-- What cookies make of the session, and whether they are to be stored, by whether they have the
-- account's id and a companion.
unfoldable pub judge_cookies :
    Bool → Bool → Dict String → PasswordLoginSession → Bool × PasswordLoginSession
unfolding cookie_text decimal
judge_cookies true has_companion cookies session = (
  true,
  record session {
    result_cookie = cookie_text cookies;
    status = success;
    message =
        if has_companion
        then "登录成功，获取到 " ⊕ decimal (length cookies) ⊕ " 个有效 Cookie"
        else "登录成功，获取到 " ⊕ decimal (length cookies) ⊕ " 个Cookie（部分关键字段缺失，可能需要刷新）";
  },
)
judge_cookies false has_companion cookies session = (
  false,
  set_status failed
      ("登录返回 " ⊕ decimal (length cookies) ⊕ " 个Cookie，但缺少关键字段: " ⊕ missing_text has_companion)
      session,
)

unfoldable pub judge : Dict String → String → PasswordLoginSession → Bool × PasswordLoginSession
unfolding judge_cookies has_any has_cookie
judge [] last_login_error session =
    let text = if last_login_error == "" then "登录失败，未获取到 Cookie" else last_login_error in
    (false, set_status failed text session)
judge (kv ∷ d) last_login_error session =
    judge_cookies (has_cookie (kv ∷ d) "unb") (has_any (kv ∷ d) companion_keys) (kv ∷ d) session

-- `db_ok` is whether the database raises nothing; any exception is logged and dropped.
unfoldable pub persist_login_to_db :
    Bool → PasswordLoginSession → String → String → Storage → Storage
unfolding update_account set_registry_cookie
persist_login_to_db db_ok session cookie_str password st =
    if session.db_path == "" || not db_ok then st else record {
      rows =
          update_account session.account_id
            (λ r. record r {
              cookie_str = cookie_str;
              username = session.username;
              password = password;
              show_browser = session.show_browser;
            })
            st.rows;
      registry = set_registry_cookie session.account_id cookie_str st.registry;
    }

unfoldable pub raise_in : String → PasswordLoginSession → PasswordLoginSession
raise_in exc session = set_status error ("登录异常：" ⊕ exc) session

-- What follows the result of the thread.
unfoldable pub finish :
    Bool → String → Outcome → PasswordLoginSession → Storage → PasswordLoginSession × Storage
unfolding judge raise_in
finish db_ok password (raised exc) session st = (raise_in exc session, st)
finish db_ok password (returned cookies last_login_error) session st =
    let (stored, session') = judge cookies last_login_error session in
    (
      session',
      if stored then persist_login_to_db db_ok session' (cookie_text cookies) password st else st,
    )
