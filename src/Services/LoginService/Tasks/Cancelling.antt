-- ===== src/Services/LoginService/Tasks/Cancelling.antt =====
-- app/services/login_service.py: a password login that was cancelled may wait for ever.
use xianyu_manager.Services.LoginService.Tasks.Histories.{is_cancel, history-own}
use xianyu_manager.Services.LoginService.Tasks.Endings.{session_of-run}
use xianyu_manager.Services.LoginService.Tasks.Histories.{
  collides, creations, history-keeps, any_own,
}
use xianyu_manager.Services.LoginService.Verdict.{raise_in}
use xianyu_manager.Services.LoginService.Tasks.{World, on_verification_required, Verification}
use xianyu_manager.Services.LoginService.Tasks.Machine.{
  Event, Login, cancel, created, history, local, login_of, run, started, cancel_delivered,
  called_back, thread_ended,
}
use xianyu_manager.Services.LoginService.{
  PasswordLoginSession, Task, get_password_session, Status, verification_required,
}
use xianyu_manager.Prelude.{
  Bool, List, Option, String, arith, false, none, refl, some, true, ◌∙◌, ◌≡◌, ap, ◌≤◌, subst, sym,
  eq_refl, ◌∷◌,
}

abbrev is_waiting : Status → Bool
is_waiting verification_required = true
is_waiting _ = false

abbrev waits : Option PasswordLoginSession → Option Task → Bool
waits none t = false
waits (some session) none = is_waiting session.status
waits (some session) (some task) = false

local-waits :
    (e : Event) (p : Option PasswordLoginSession) (t : Option Task) (b : Bool)
    → is_cancel e ≡ false
    → collides e p ≡ false
    → waits p t ≡ true
    → waits
        (local e (record { session = p; task = t; thread = b })).session
        (local e (record { session = p; task = t; thread = b })).task
      ≡ true
unfolding local on_verification_required raise_in
local-waits e none t b k g h = absurd (ground arith)
local-waits e (some p) (some t) b k g h = absurd (ground arith)
local-waits (created id c n q) (some p) none b k g h = ground arith
local-waits (cancel id) (some p) none b k g h = ground arith
local-waits (started id i) (some p) none b k g h = ground arith
local-waits (cancel_delivered id) (some p) none b k g h = ground arith
local-waits (called_back id v) (some p) none b k g h = ground arith
local-waits (thread_ended id db_ok o) (some p) none b k g h = ground arith

abbrev pub IsWaiting : Option PasswordLoginSession → Type 0
IsWaiting p =
    (session : PasswordLoginSession) × (p ≡ some session) × (session.status ≡ verification_required)

is_waiting-eq : (s : Status) → is_waiting s ≡ true → s ≡ verification_required
is_waiting-eq s h = ground arith

waits-IsWaiting :
    (p : Option PasswordLoginSession) (t : Option Task) → waits p t ≡ true → IsWaiting p
waits-IsWaiting none t h = absurd (ground arith)
waits-IsWaiting (some session) none h = (session, refl, is_waiting-eq session.status h)
waits-IsWaiting (some session) (some t) h = absurd (ground arith)

-- What the service keeps of a cancelled login, if the thread of its browser calls back after the
-- cancellation has ended its task: it waits for a verification, and whatever happens then it goes on to do so, unless it is
-- cancelled again; its id is not created again.
pub run-waits :
    (es : List Event) (id : String) (v : Verification) (w : World) (session : PasswordLoginSession)
    → creations id es ≤ 0
    → any_own is_cancel id es ≡ false
    → login_of id w.service ≡ record { session = some session; task = none; thread = true }
    → IsWaiting (get_password_session id (run (called_back id v ∷ es) w).service)
unfolding on_verification_required local
run-waits es id v w session once k e =
    let l : Login = record {
      session = some (on_verification_required v session);
      task = none;
      thread = true;
    } in
    let called =
      session_of-run (called_back id v ∷ es) id w
      ∙ ap (λ l. (history id (called_back id v ∷ es) l).session) e
      ∙ ap (λ l. l.session)
          (history-own id (called_back id v) es
            (record { session = some session; task = none; thread = true }) (eq_refl id)) in
    let kept =
      history-keeps is_cancel (λ l. waits l.session l.task ≡ true) id
        (λ e l k' distinct g. local-waits e l.session l.task l.thread k' distinct g) es l k
        (omega (arith, once)) refl in
    subst IsWaiting (sym called)
      (waits-IsWaiting (history id es l).session (history id es l).task kept)
