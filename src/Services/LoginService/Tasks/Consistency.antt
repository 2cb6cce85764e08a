-- ===== src/Services/LoginService/Tasks/Consistency.antt =====
-- app/services/login_service.py: what a session, its task and its thread are to each other, in every
-- order of events that creates a login once.
use xianyu_manager.Services.LoginService.Tasks.Histories.{
  collides, creations, history-keeps, present, no_kind, any_own-no_kind,
}
use xianyu_manager.Services.LoginService.Verdict.{
  Outcome, has_cookie, judge, raise_in, raised, returned, judge_cookies, has_any, companion_keys,
}
use xianyu_manager.Services.LoginService.Tasks.{on_verification_required}
use xianyu_manager.Services.LoginService.Tasks.Machine.{
  Event, Login, cancel, created, judged, local, started, cancel_delivered, called_back,
  thread_ended, history,
}
use xianyu_manager.Services.LoginService.{
  PasswordLoginSession, Status, Task, cancelled, error, failed, is_terminal, processing, success,
  verification_required,
}
use xianyu_manager.Dict.{Dict}
use xianyu_manager.Prelude.{
  Bool, Option, String, [], arith, false, if◌then◌else◌, none, not, refl, some, true, ◌&&◌, ◌||◌,
  ◌∷◌, ◌≡◌, ◌+◌, List, ◌≤◌,
}

-- The statuses of a login that was cancelled: its browser may call back later.
abbrev pub after_cancel : Status → Bool
after_cancel cancelled = true
after_cancel verification_required = true
after_cancel _ = false

abbrev is_processing : Status → Bool
is_processing processing = true
is_processing _ = false

abbrev same : Bool → Bool → Bool
same true b = b
same false b = not b

-- What a session, its task and its thread are to each other.
abbrev pub consistent : Option PasswordLoginSession → Option Task → Bool → Bool
consistent none none b = not b
consistent none (some _) b = false
consistent (some session) (some task) b =
    if task.cancel_requested
    then after_cancel session.status && (task.started || not b)
    else not (is_terminal session.status) && same b task.started
consistent (some session) none b =
    if b then after_cancel session.status else not (is_processing session.status)

abbrev pub IsConsistent : Login → Type 0
IsConsistent l = consistent l.session l.task l.thread ≡ true

abbrev pub has_ended : Status → Bool
has_ended success = true
has_ended failed = true
has_ended error = true
has_ended _ = false

judge_cookies-has_ended :
    (unb companion : Bool) (cookies : Dict String) (session : PasswordLoginSession)
    → has_ended (judge_cookies unb companion cookies session).1.status ≡ true
unfolding judge_cookies
judge_cookies-has_ended true companion cookies session = refl
judge_cookies-has_ended false companion cookies session = refl

pub judged-has_ended :
    (o : Outcome) (session : PasswordLoginSession) → has_ended (judged o session).status ≡ true
unfolding judge raise_in
judged-has_ended (raised exc) session = refl
judged-has_ended (returned [] e) session = refl
judged-has_ended (returned (kv ∷ d) e) session =
    judge_cookies-has_ended (has_cookie (kv ∷ d) "unb") (has_any (kv ∷ d) companion_keys) (kv ∷ d)
      session

pub local-IsConsistent :
    (e : Event) (p : Option PasswordLoginSession) (t : Option Task) (b : Bool)
    → collides e p ≡ false
    → consistent p t b ≡ true
    → IsConsistent (local e (record { session = p; task = t; thread = b }))
unfolding local on_verification_required raise_in
local-IsConsistent (created id c n q) none t b g h = ground arith
local-IsConsistent (created id c n q) (some p) t b g h = ground arith
local-IsConsistent (cancel id) none t b g h = ground arith
local-IsConsistent (cancel id) (some p) none b g h = ground arith
local-IsConsistent (cancel id) (some p) (some t) b g h = ground arith
local-IsConsistent (started id none) p none b g h = ground arith
local-IsConsistent (started id none) none (some t) b g h = ground arith
local-IsConsistent (started id none) (some p) (some t) b g h = ground arith
local-IsConsistent (started id (some exc)) p none b g h = ground arith
local-IsConsistent (started id (some exc)) none (some t) b g h = ground arith
local-IsConsistent (started id (some exc)) (some p) (some t) b g h = ground arith
local-IsConsistent (cancel_delivered id) p none b g h = ground arith
local-IsConsistent (cancel_delivered id) none (some t) b g h = ground arith
local-IsConsistent (cancel_delivered id) (some p) (some t) b g h = ground arith
local-IsConsistent (called_back id v) none t b g h = ground arith
local-IsConsistent (called_back id v) (some p) none b g h = ground arith
local-IsConsistent (called_back id v) (some p) (some t) b g h = ground arith
local-IsConsistent (thread_ended id db_ok o) none t b g h = ground arith
local-IsConsistent (thread_ended id db_ok o) (some p) none b g h = ground arith
local-IsConsistent (thread_ended id db_ok o) (some p) (some t) b g h =
    ground (arith, judged-has_ended o p)

pub history-IsConsistent :
    (id : String) (es : List Event) (l : Login)
    → creations id es + present l.session ≤ 1
    → IsConsistent l
    → IsConsistent (history id es l)
history-IsConsistent id es l =
    history-keeps no_kind IsConsistent id
      (λ e l _ distinct g. local-IsConsistent e l.session l.task l.thread distinct g) es l
      (any_own-no_kind id es)
