-- ===== src/Services/LoginService/Tasks/Endings.antt =====
-- app/services/login_service.py: how a password login ends, in every order of events.
use xianyu_manager.Services.LoginService.Tasks.Consistency.{
  IsConsistent, has_ended, history-IsConsistent, consistent,
}
use xianyu_manager.Services.LoginService.Tasks.Histories.{
  any_own-no_kind, collides, creations, history-keeps, history-present, no_kind, present,
}
use xianyu_manager.Services.LoginService.Tasks.Isolation.{run-login_of}
use xianyu_manager.Db.{Storage}
use xianyu_manager.Services.LoginService.Tasks.{World}
use xianyu_manager.Services.LoginService.Tasks.Machine.{
  Event, Login, cancel, created, history, local, login_of, run, started, cancel_delivered,
  called_back, thread_ended,
}
use xianyu_manager.Services.LoginService.{PasswordLoginSession, Task, get_password_session, init}
use xianyu_manager.Dict.{Dict, lookup}
use xianyu_manager.Prelude.{
  Bool, List, Option, String, arith, false, none, refl, some, true, ◌∙◌, ◌≡◌, ap, ◌+◌, ◌≤◌, subst,
  sym,
}

abbrev ended_with : PasswordLoginSession → Login
ended_with session = record { session = some session; task = none; thread = false }

ended_alone :
    (session : PasswordLoginSession) (t : Option Task) (b : Bool)
    → consistent (some session) t b ≡ true
    → has_ended session.status ≡ true
    → (t ≡ none) × (b ≡ false)
ended_alone session (some t) b h g = absurd (ground arith)
ended_alone session none b h g = (refl, ground arith)

local-ended_with :
    (session : PasswordLoginSession) (e : Event)
    → has_ended session.status ≡ true
    → collides e (some session) ≡ false
    → local e (ended_with session) ≡ ended_with session
unfolding local
local-ended_with session (created id c n q) h d = absurd (ground arith)
local-ended_with session (cancel id) h d = ground arith
local-ended_with session (started id i) h d = refl
local-ended_with session (cancel_delivered id) h d = refl
local-ended_with session (called_back id v) h d = refl
local-ended_with session (thread_ended id b o) h d = refl

abbrev pub new_world : Storage → World
new_world st = record { service = init; storage = st }

-- What the events of a login make of nothing.
unfoldable pub login_after : String → List Event → Login
login_after id es = history id es (record { session = none; task = none; thread = false })

pub login_of-run :
    (es : List Event) (id : String) (st : Storage)
    → login_of id (run es (new_world st)).service ≡ login_after id es
unfolding login_after login_of xianyu_manager.Dict.lookup
login_of-run es id st = run-login_of es id (new_world st)

pub session_of-run :
    (es : List Event) (id : String) (w : World)
    → get_password_session id (run es w).service ≡ (history id es (login_of id w.service)).session
unfolding get_password_session login_of
session_of-run es id w = ap (λ l. l.session) (run-login_of es id w)

pub login_after-IsConsistent :
    (id : String) (es : List Event) → creations id es ≤ 1 → IsConsistent (login_after id es)
unfolding login_after
login_after-IsConsistent id es h =
    history-IsConsistent id es (record { session = none; task = none; thread = false })
      (omega (arith, h)) refl

login_after-present :
    (id : String) (es : List Event) → present (login_after id es).session ≤ creations id es
unfolding login_after
login_after-present id es =
    let bound = history-present id es (record { session = none; task = none; thread = false }) in
    omega (arith, bound)

pub found-login_after :
    (es : List Event) (id : String) (st : Storage) (session : PasswordLoginSession)
    → get_password_session id (run es (new_world st)).service ≡ some session
    → (login_after id es).session ≡ some session
unfolding get_password_session login_of
found-login_after es id st session found = ap (λ l. l.session) (sym (login_of-run es id st)) ∙ found

pub found-creations :
    (es : List Event) (id : String) (session : PasswordLoginSession)
    → (login_after id es).session ≡ some session
    → 1 ≤ creations id es
found-creations es id session e =
    subst (λ p. present p ≤ creations id es) e (login_after-present id es)

history-ended_with :
    (id : String) (es : List Event) (session : PasswordLoginSession)
    → has_ended session.status ≡ true
    → creations id es + 1 ≤ 1
    → history id es (ended_with session) ≡ ended_with session
history-ended_with id es session h bound =
    history-keeps no_kind (λ l. l ≡ ended_with session) id
      (λ e l _ distinct g.
        ap (local e) g
        ∙ local-ended_with session e h (subst (λ k. collides e k.session ≡ false) g distinct))
      es (ended_with session) (any_own-no_kind id es) bound refl

ended_with-login :
    (l : Login) (session : PasswordLoginSession)
    → l.session ≡ some session
    → IsConsistent l
    → has_ended session.status ≡ true
    → l ≡ ended_with session
ended_with-login l session e g h =
    let (no_task, no_thread) =
      ended_alone session l.task l.thread (subst (λ p. consistent p l.task l.thread ≡ true) e g)
        h in
    cc

-- A login that ended by itself, with success, with a failure or with an error, keeps its session as it
-- is over whatever happens afterwards, if its id is created once.
pub run-keeps_ended :
    (es es' : List Event) (id : String) (st : Storage) (session : PasswordLoginSession)
    → creations id es + creations id es' ≤ 1
    → get_password_session id (run es (new_world st)).service ≡ some session
    → has_ended session.status ≡ true
    → get_password_session id (run es' (run es (new_world st))).service ≡ some session
run-keeps_ended es es' id st session once found h =
    let first = found-login_after es id st session found in
    let created_before = found-creations es id session first in
    let valid = login_after-IsConsistent id es (omega (arith, once, created_before)) in
    let alone = ended_with-login (login_after id es) session first valid h in
    session_of-run es' id (run es (new_world st))
    ∙ ap (λ l. (history id es' l).session) (login_of-run es id st ∙ alone)
    ∙ ap (λ l. l.session)
        (history-ended_with id es' session h (omega (arith, once, created_before)))
