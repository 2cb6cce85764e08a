-- ===== src/Services/LoginService/Tasks/Successes.antt =====
-- app/services/login_service.py: what a successful login rests on.
use xianyu_manager.Services.LoginService.Tasks.Endings.{login_after, new_world, found-login_after}
use xianyu_manager.Prelude.{
  In, here, there, [], ◌∷◌, ◌==◌, if◌then◌else◌, ◌||◌, ◌&&◌, Bool-cases, inl, inr, not, eq_iff,
}
use xianyu_manager.Db.{Storage}
use xianyu_manager.Services.LoginService.Verdict.{
  companion_keys, cookie_text, has_any, has_cookie, judge, judge_cookies, raise_in, returned,
  Outcome, raised,
}
use xianyu_manager.Services.LoginService.Tasks.{on_verification_required}
use xianyu_manager.Services.LoginService.Tasks.Machine.{
  Event, Login, cancel, created, history, local, run, started, cancel_delivered, called_back,
  thread_ended, owner, judged, mapped,
}
use xianyu_manager.Services.LoginService.{
  PasswordLoginSession, Task, get_password_session, success, new_session, new_task, cancelled,
  is_terminal, set_status,
}
use xianyu_manager.Dict.{Dict}
use xianyu_manager.Prelude.{
  Bool, List, Option, String, arith, false, none, refl, some, true, ◌≡◌, subst, sym,
}

-- A successful session's cookies are those that the thread of this login brought, with the account's id.
abbrev pub IsEarned : String → List Event → PasswordLoginSession → Type 0
IsEarned id es session =
    (cookies : Dict String) × (last_login_error : String) × (db_ok : Bool) × In
      (thread_ended id db_ok (returned cookies last_login_error)) es
    × (has_cookie cookies "unb" ≡ true)
    × (session.result_cookie ≡ cookie_text cookies)

judge_cookies-success :
    (unb companion : Bool) (cookies : Dict String) (session : PasswordLoginSession)
    → (judge_cookies unb companion cookies session).1.status ≡ success
    → (unb ≡ true)
      × ((judge_cookies unb companion cookies session).1.result_cookie ≡ cookie_text cookies)
unfolding judge_cookies
judge_cookies-success true companion cookies session h = (refl, refl)
judge_cookies-success false companion cookies session h = absurd (ground arith)

judge-success :
    (cookies : Dict String) (e : String) (session : PasswordLoginSession)
    → (judge cookies e session).1.status ≡ success
    → (has_cookie cookies "unb" ≡ true)
      × ((judge cookies e session).1.result_cookie ≡ cookie_text cookies)
unfolding judge
judge-success [] e session h = absurd (ground arith)
judge-success (kv ∷ d) e session h =
    judge_cookies-success (has_cookie (kv ∷ d) "unb") (has_any (kv ∷ d) companion_keys) (kv ∷ d)
      session h

Proved : String → List Event → Option PasswordLoginSession → Type 0
Proved id es none = Unit
Proved id es (some session) = session.status ≡ success → IsEarned id es session

if-Proved :
    (id : String) (es : List Event) (b : Bool) (x y : Login)
    → Proved id es x.session
    → Proved id es y.session
    → Proved id es (if b then x else y).session
if-Proved id es true x y g h = g
if-Proved id es false x y g h = h

mapped-Proved :
    (id : String) (es : List Event) (f : PasswordLoginSession → PasswordLoginSession)
    (p : Option PasswordLoginSession)
    → ((session : PasswordLoginSession)
        → Proved id es (some session)
        → Proved id es (some (f session)))
    → Proved id es p
    → Proved id es (mapped f p)
unfolding Proved
mapped-Proved id es f none k g = tt
mapped-Proved id es f (some session) k g = k session g

judged-Proved :
    (id : String) (es : List Event) (db_ok : Bool) (o : Outcome) (session : PasswordLoginSession)
    → In (thread_ended id db_ok o) es
    → Proved id es (some (judged o session))
unfolding Proved raise_in
judged-Proved id es db_ok (raised exc) session member h = absurd (ground arith)
judged-Proved id es db_ok (returned cookies e) session member h =
    let (unb, text) = judge-success cookies e session h in (cookies, e, db_ok, member, unb, text)

local-Proved :
    (es : List Event) (e : Event) (p : Option PasswordLoginSession) (t : Option Task) (b : Bool)
    → In e es
    → Proved (owner e) es p
    → Proved (owner e) es (local e (record { session = p; task = t; thread = b })).session
unfolding local on_verification_required raise_in Proved
local-Proved es (created id c n q) p t b member g =
    let l : Login = record { session = p; task = t; thread = b } in
    if-Proved id es (q.username == "" || q.password == "") l
      (if q.account_id == ""
        then l
        else record l { session = some (new_session id c n q); task = some (new_task q.password) })
      g
      (if-Proved id es (q.account_id == "") l
        (record l { session = some (new_session id c n q); task = some (new_task q.password) }) g
        (λ h. absurd (ground arith)))
local-Proved es (cancel id) none t b member g = tt
local-Proved es (cancel id) (some p) t b member g =
    if-Proved id es (is_terminal p.status) _ _ g (λ h. absurd (ground arith))
local-Proved es (started id i) p none b member g = g
local-Proved es (started id none) p (some t) b member g =
    if-Proved id es (t.started || t.cancel_requested) _ _ g (
      mapped-Proved id es (λ session. record session { message = "正在启动浏览器并执行登录..." }) p
        (λ session k h. k h) g)
local-Proved es (started id (some exc)) p (some t) b member g =
    if-Proved id es (t.started || t.cancel_requested) _ _ g
      (mapped-Proved id es (raise_in exc) p (λ session _ h. absurd (ground arith)) g)
local-Proved es (cancel_delivered id) p none b member g = g
local-Proved es (cancel_delivered id) p (some t) b member g =
    if-Proved id es t.cancel_requested _ _
      (if-Proved id es t.started _ _
        (mapped-Proved id es (set_status cancelled "登录任务已取消") p
          (λ session _ h. absurd (ground arith)) g)
        g)
      g
local-Proved es (called_back id v) p t false member g = g
local-Proved es (called_back id v) p t true member g =
    mapped-Proved id es (on_verification_required v) p (λ session _ h. absurd (ground arith)) g
local-Proved es (thread_ended id db_ok o) p t false member g = g
local-Proved es (thread_ended id db_ok o) p none true member g = g
local-Proved es (thread_ended id db_ok o) none (some t) true member g =
    if-Proved id es (t.started && not t.cancel_requested) _ _ tt tt
local-Proved es (thread_ended id db_ok o) (some p) (some t) true member g =
    if-Proved id es (t.started && not t.cancel_requested) _ _ (judged-Proved id es db_ok o p member)
      g

history-Proved :
    (id : String) (all es : List Event) (l : Login)
    → ((e : Event) → In e es → In e all)
    → Proved id all l.session
    → Proved id all (history id es l).session
unfolding history
history-Proved id all [] l within g = g
history-Proved id all (e ∷ es) l within g = elim (Bool-cases (owner e == id)) [
  | inl own ↦
      subst (λ b. Proved id all (history id es (if b then local e l else l)).session) (sym own)
        (history-Proved id all es (local e l) (λ k m. within k (there m))
          (own-Proved e l own (within e (here refl)) g))
  | inr other ↦
      subst (λ b. Proved id all (history id es (if b then local e l else l)).session) (sym other)
        (history-Proved id all es l (λ k m. within k (there m)) g)
]
  where
    own-Proved :
        (e : Event) (l : Login)
        → owner e == id ≡ true
        → In e all
        → Proved id all l.session
        → Proved id all (local e l).session
    own-Proved e l own member g =
        let same = (eq_iff (owner e) id).0 own in
        subst (λ k. Proved k all (local e l).session) same
          (local-Proved all e l.session l.task l.thread member
            (subst (λ k. Proved k all l.session) (sym same) g))

-- A login is successful only if the thread of this login came back with cookies among which the
-- account's id is not blank; and then the session has exactly these cookies, as one text.
pub run-IsEarned :
    (es : List Event) (id : String) (st : Storage) (session : PasswordLoginSession)
    → get_password_session id (run es (new_world st)).service ≡ some session
    → session.status ≡ success
    → IsEarned id es session
unfolding login_after Proved
run-IsEarned es id st session found =
    subst (Proved id es) (found-login_after es id st session found) (
      history-Proved id es es (record { session = none; task = none; thread = false }) (λ e m. m)
        tt)
