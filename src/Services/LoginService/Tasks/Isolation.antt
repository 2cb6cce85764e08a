-- ===== src/Services/LoginService/Tasks/Isolation.antt =====
-- app/services/login_service.py: an event of one login is no event of the others.
use xianyu_manager.Services.LoginService.Tasks.Projections.{
  created-login_of, cancelled-login_of, started-login_of, called_back-login_of, thrown-login_of,
}
use xianyu_manager.Services.LoginService.Tasks.Machine.{
  Event, called_back, cancel, cancel_delivered, created, judged, local, login_of, owner, started,
  thread_ended, ended, step, run, history,
}
use xianyu_manager.Dict.{contains, insert, lookup, erase}
use xianyu_manager.Dict.Laws.{lookup-insert, lookup-erase}
use xianyu_manager.Db.{Storage}
use xianyu_manager.Services.LoginService.Verdict.{Outcome, raised, returned, finish}
use xianyu_manager.Services.LoginService.Tasks.{World, thread_ends}
use xianyu_manager.Services.LoginService.{LoginService, PasswordLoginSession, Task}
use xianyu_manager.Prelude.{
  Bool, List, Option, String, [], arith, eq_iff, if◌then◌else◌, none, refl, some, ◌==◌, ◌∷◌, ◌≡◌,
  ◌&&◌, not, ap, ◌∙◌,
}

finish-session :
    (db_ok : Bool) (password : String) (o : Outcome) (session : PasswordLoginSession) (st : Storage)
    → (finish db_ok password o session st).0 ≡ judged o session
unfolding finish
finish-session db_ok password (raised exc) session st = refl
finish-session db_ok password (returned cookies last_login_error) session st = refl

ended-login_of :
    (id j : String) (db_ok : Bool) (o : Outcome) (w : World)
    → login_of j (thread_ends id db_ok o w).service
      ≡ (if id == j then ended o (login_of j w.service) else login_of j w.service)
unfolding thread_ends login_of
ended-login_of id j db_ok o w =
    by_task (lookup id w.service.background_tasks) (lookup id w.service.password_sessions) refl refl
  where
    s : LoginService
    s = record w.service { threads = erase id w.service.threads }

    by_task :
        (t : Option Task) (p : Option PasswordLoginSession)
        → lookup id w.service.background_tasks ≡ t
        → lookup id w.service.password_sessions ≡ p
        → login_of j
            (if contains id w.service.threads
              then elim t as (λ _. World) [
                | none ↦ record w { service = s }
                | some task ↦
                    if task.started && not task.cancel_requested
                    then elim p as (λ _. World) [
                      | none ↦ record w { service = s }
                      | some session ↦
                          let (session', storage) =
                            finish db_ok task.password o session w.storage in
                          record {
                            service = record s {
                              password_sessions = insert id session' s.password_sessions;
                              background_tasks = erase id s.background_tasks;
                            };
                            storage = storage;
                          }
                    ]
                    else record w { service = s }
              ]
              else w).service
          ≡ (if id == j then ended o (login_of j w.service) else login_of j w.service)
    by_task none p h g = ground (arith, eq_iff id j, lookup-erase id j w.service.threads)
    by_task (some task) none h g = ground (arith, eq_iff id j, lookup-erase id j w.service.threads)
    by_task (some task) (some session) h g = ground (
      arith,
      eq_iff id j,
      lookup-erase id j w.service.threads,
      lookup-erase id j w.service.background_tasks,
      finish-session db_ok task.password o session w.storage,
      lookup-insert id j (finish db_ok task.password o session w.storage).0
          w.service.password_sessions,
    )

step-login_of :
    (e : Event) (j : String) (w : World)
    → login_of j (step e w).service
      ≡ (if owner e == j then local e (login_of j w.service) else login_of j w.service)
unfolding step local
step-login_of (created id c n q) j w = created-login_of id j c n q w.service
step-login_of (cancel id) j w = cancelled-login_of id j w.service
step-login_of (started id import_error) j w = started-login_of id j import_error w.service
step-login_of (cancel_delivered id) j w = thrown-login_of id j w.service
step-login_of (called_back id v) j w = called_back-login_of id j v w.service
step-login_of (thread_ended id db_ok o) j w = ended-login_of id j db_ok o w

-- After any events, in any order, what the service holds of a login is what the events that name it
-- make of it, in their order.
pub run-login_of :
    (es : List Event) (j : String) (w : World)
    → login_of j (run es w).service ≡ history j es (login_of j w.service)
unfolding run history
run-login_of [] j w = refl
run-login_of (e ∷ es) j w =
    run-login_of es j (step e w) ∙ ap (λ l. history j es l) (step-login_of e j w)
