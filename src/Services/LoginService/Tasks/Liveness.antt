-- ===== src/Services/LoginService/Tasks/Liveness.antt =====
-- app/services/login_service.py: a password login that nobody cancels ends.
use xianyu_manager.Services.LoginService.Tasks.Histories.{is_cancel, history-own}
use xianyu_manager.Services.LoginService.Tasks.Endings.{
  login_after, login_of-run, session_of-run, found-login_after, new_world,
}
use xianyu_manager.Services.LoginService.Tasks.Consistency.{
  local-IsConsistent, IsConsistent, has_ended, consistent, judged-has_ended,
}
use xianyu_manager.Services.LoginService.Tasks.Histories.{creations, history-keeps, any_own}
use xianyu_manager.Db.{Storage}
use xianyu_manager.Services.LoginService.Verdict.{raise_in, Outcome}
use xianyu_manager.Services.LoginService.Tasks.{on_verification_required}
use xianyu_manager.Services.LoginService.Tasks.Machine.{
  Event, Login, cancel, created, history, local, run, started, cancel_delivered, called_back,
  thread_ended, begun, judged, ended,
}
use xianyu_manager.Services.LoginService.{PasswordLoginSession, Task, get_password_session}
use xianyu_manager.Prelude.{
  Bool, List, Option, String, arith, false, none, refl, some, true, ◌∙◌, ◌≡◌, ap, ◌≤◌, subst, sym,
  not, [], eq_refl, ◌∷◌,
}

abbrev untouched : Option PasswordLoginSession → Option Task → Bool
untouched none t = true
untouched (some session) none = has_ended session.status
untouched (some session) (some task) = not task.cancel_requested

local-untouched :
    (e : Event) (p : Option PasswordLoginSession) (t : Option Task) (b : Bool)
    → is_cancel e ≡ false
    → consistent p t b ≡ true
    → untouched p t ≡ true
    → untouched
        (local e (record { session = p; task = t; thread = b })).session
        (local e (record { session = p; task = t; thread = b })).task
      ≡ true
unfolding local on_verification_required raise_in
local-untouched (created id c n q) p t b k g h = ground arith
local-untouched (cancel id) p t b k g h = ground arith
local-untouched (started id i) none none b k g h = refl
local-untouched (started id i) none (some t) b k g h = ground arith
local-untouched (started id i) (some p) none b k g h = ground arith
local-untouched (started id none) (some p) (some t) b k g h = ground arith
local-untouched (started id (some exc)) (some p) (some t) b k g h = ground arith
local-untouched (cancel_delivered id) none t b k g h = ground arith
local-untouched (cancel_delivered id) (some p) t b k g h = ground arith
local-untouched (called_back id v) none t b k g h = ground arith
local-untouched (called_back id v) (some p) none b k g h = ground arith
local-untouched (called_back id v) (some p) (some t) b k g h = ground arith
local-untouched (thread_ended id db_ok o) none t b k g h = ground arith
local-untouched (thread_ended id db_ok o) (some p) none b k g h = ground arith
local-untouched (thread_ended id db_ok o) (some p) (some t) b k g h =
    ground (arith, judged-has_ended o p)

history-two :
    (id : String) (import_error : Option String) (db_ok : Bool) (o : Outcome) (l : Login)
    → history id (started id import_error ∷ thread_ended id db_ok o ∷ []) l
      ≡ ended o (begun import_error l)
unfolding history local
history-two id import_error db_ok o l =
    history-own id (started id import_error) (thread_ended id db_ok o ∷ []) l (eq_refl id)
    ∙ history-own id (thread_ended id db_ok o) [] (begun import_error l) (eq_refl id)

abbrev pub HasEnded : Option PasswordLoginSession → Type 0
HasEnded p =
    (session : PasswordLoginSession) × (p ≡ some session) × (has_ended session.status ≡ true)

-- The login of a session, of the fields of its task and of its thread.
abbrev running : PasswordLoginSession → String → Bool → Bool → Bool → Login
running session password st cr b = record {
  session = some session;
  task = some (record { password = password; started = st; cancel_requested = cr });
  thread = b;
}

running-HasEnded :
    (i : Option String) (o : Outcome) (session : PasswordLoginSession) (password : String)
    (st cr b : Bool)
    → IsConsistent (running session password st cr b)
    → cr ≡ false
    → HasEnded (ended o (begun i (running session password st cr b))).session
unfolding raise_in
running-HasEnded i o session password st true b g h = absurd (ground arith)
running-HasEnded i o session password true false false g h = absurd (ground arith)
running-HasEnded i o session password false false true g h = absurd (ground arith)
running-HasEnded i o session password true false true g h =
    (judged o session, refl, judged-has_ended o session)
running-HasEnded (some exc) o session password false false false g h =
    (raise_in exc session, refl, refl)
running-HasEnded none o session password false false false g h =
    let session' = record session { message = "正在启动浏览器并执行登录..." } in
    (judged o session', refl, judged-has_ended o session')

two-HasEnded :
    (i : Option String) (o : Outcome) (session : PasswordLoginSession) (t : Option Task) (b : Bool)
    → consistent (some session) t b ≡ true
    → untouched (some session) t ≡ true
    → HasEnded (ended o (begun i (record { session = some session; task = t; thread = b }))).session
two-HasEnded i o session none true g h = absurd (ground arith)
two-HasEnded i o session none false g h = (session, refl, h)
two-HasEnded i o session (some t) b g h =
    running-HasEnded i o session t.password t.started t.cancel_requested b g (ground arith)

abbrev IsUntouched : Login → Type 0
IsUntouched l = IsConsistent l × (untouched l.session l.task ≡ true)

login_after-IsUntouched :
    (id : String) (es : List Event)
    → creations id es ≤ 1
    → any_own is_cancel id es ≡ false
    → IsUntouched (login_after id es)
unfolding login_after
login_after-IsUntouched id es once k =
    history-keeps is_cancel IsUntouched id
      (λ e l k' distinct g. (
        local-IsConsistent e l.session l.task l.thread distinct g.0,
        local-untouched e l.session l.task l.thread k' g.0 g.1,
      ))
      es (record { session = none; task = none; thread = false }) k (omega (arith, once))
      (refl, refl)

-- A password login that nobody cancels comes to its end: whatever happened, as soon as its task has been
-- started and its thread has ended, with whatever result, its session has ended with success, with a
-- failure or with an error; its id is created once.
pub run-ends :
    (es : List Event) (id : String) (st : Storage) (session : PasswordLoginSession)
    (import_error : Option String) (db_ok : Bool) (outcome : Outcome)
    → creations id es ≤ 1
    → any_own is_cancel id es ≡ false
    → get_password_session id (run es (new_world st)).service ≡ some session
    → HasEnded (
        get_password_session id
          (run
            (started id import_error ∷ thread_ended id db_ok outcome ∷ [])
            (run es (new_world st))).service)
run-ends es id st session import_error db_ok outcome once k found =
    let l = login_after id es in
    let g = login_after-IsUntouched id es once k in
    let e = found-login_after es id st session found in
    subst HasEnded
      (sym (
        session_of-run (started id import_error ∷ thread_ended id db_ok outcome ∷ []) id
          (run es (new_world st))
        ∙ ap
            (λ l.
              (history id (started id import_error ∷ thread_ended id db_ok outcome ∷ []) l).session)
            (login_of-run es id st)
        ∙ ap (λ l. l.session) (history-two id import_error db_ok outcome l)))
      (subst
        (λ p.
          HasEnded
            (ended outcome (
              begun import_error
                (record { session = p; task = l.task; thread = l.thread }))).session)
        (sym e)
        (two-HasEnded import_error outcome session l.task l.thread
          (subst (λ p. consistent p l.task l.thread ≡ true) e g.0)
          (subst (λ p. untouched p l.task ≡ true) e g.1)))
