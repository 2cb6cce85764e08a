-- ===== src/Services/LoginService/Tasks/Projections.antt =====
-- app/services/login_service.py: what each operation makes of one login, by its id.
use xianyu_manager.Services.LoginService.Tasks.Machine.{
  begun, login_of, made, mapped, notified, requested, stopped, thrown,
}
use xianyu_manager.Dict.{insert, lookup, Dict, erase}
use xianyu_manager.Dict.Laws.{lookup-insert, lookup-erase}
use xianyu_manager.Services.LoginService.Verdict.{raise_in}
use xianyu_manager.Services.LoginService.Tasks.{
  Verification, begin, call_back, deliver_cancel, modify, on_verification_required,
}
use xianyu_manager.Services.LoginService.{
  LoginRequest, LoginService, PasswordLoginSession, Task, cancel_password_session,
  create_password_session, cancel_task, cancelled, is_terminal, new_session, new_task, set_status,
}
use xianyu_manager.Prelude.{
  Bool, Option, String, arith, eq_iff, if◌then◌else◌, none, refl, some, ℕ, ◌==◌, ◌≡◌, false, true,
  ◌||◌,
}

pub modify-login_of :
    (id j : String) (f : PasswordLoginSession → PasswordLoginSession) (s : LoginService)
    → login_of j (modify id f s) ≡ (
        if id == j
        then record (login_of j s) { session = mapped f (login_of j s).session }
        else login_of j s)
unfolding modify login_of
modify-login_of id j f s = by_lookup (lookup id s.password_sessions) refl
  where
    by_lookup :
        (o : Option PasswordLoginSession)
        → lookup id s.password_sessions ≡ o
        → login_of j (elim o as (λ _. LoginService) [
          | none ↦ s
          | some session ↦ record s {
            password_sessions = insert id (f session) s.password_sessions;
          }
        ])
          ≡ (if id == j
              then record (login_of j s) { session = mapped f (login_of j s).session }
              else login_of j s)
    by_lookup none h = ground (arith, eq_iff id j)
    by_lookup (some session) h =
        ground (arith, eq_iff id j, lookup-insert id j (f session) s.password_sessions)

pub cancel_task-lookup :
    (id j : String) (tasks : Dict Task)
    → lookup j (cancel_task id tasks)
      ≡ (if id == j then requested (lookup j tasks) else lookup j tasks)
unfolding cancel_task
cancel_task-lookup id j tasks = by_lookup (lookup id tasks) refl
  where
    by_lookup :
        (o : Option Task)
        → lookup id tasks ≡ o
        → lookup j (elim o as (λ _. Dict Task) [
          | none ↦ tasks
          | some task ↦ insert id (record task { cancel_requested = true }) tasks
        ])
          ≡ (if id == j then requested (lookup j tasks) else lookup j tasks)
    by_lookup none h = ground (arith, eq_iff id j)
    by_lookup (some task) h =
        ground
          (arith, eq_iff id j, lookup-insert id j (record task { cancel_requested = true }) tasks)

pub created-login_of :
    (id j : String) (c n : ℕ) (q : LoginRequest) (s : LoginService)
    → login_of j (create_password_session id c n q s).1
      ≡ (if id == j then made id c n q (login_of j s) else login_of j s)
unfolding create_password_session login_of
created-login_of id j c n q s = ground (
  arith,
  eq_iff id j,
  lookup-insert id j (new_session id c n q) s.password_sessions,
  lookup-insert id j (new_task q.password) s.background_tasks,
)

pub cancelled-login_of :
    (id j : String) (s : LoginService)
    → login_of j (cancel_password_session id s).1
      ≡ (if id == j then stopped (login_of j s) else login_of j s)
unfolding cancel_password_session login_of
cancelled-login_of id j s = by_lookup (lookup id s.password_sessions) refl
  where
    by_lookup :
        (o : Option PasswordLoginSession)
        → lookup id s.password_sessions ≡ o
        → login_of j
            (elim o as (λ _. Bool × LoginService) [
              | none ↦ (false, s)
              | some session ↦ if is_terminal session.status then (false, s) else (
                true,
                record s {
                  password_sessions =
                      insert id (set_status cancelled "登录已取消" session) s.password_sessions;
                  background_tasks = cancel_task id s.background_tasks;
                },
              )
            ]).1
          ≡ (if id == j then stopped (login_of j s) else login_of j s)
    by_lookup none h = ground (arith, eq_iff id j)
    by_lookup (some session) h = ground (
      arith,
      eq_iff id j,
      cancel_task-lookup id j s.background_tasks,
      lookup-insert id j (set_status cancelled "登录已取消" session) s.password_sessions,
    )

pub called_back-login_of :
    (id j : String) (v : Verification) (s : LoginService)
    → login_of j (call_back id v s) ≡ (if id == j then notified v (login_of j s) else login_of j s)
unfolding call_back login_of
called_back-login_of id j v s =
    ground (arith, eq_iff id j, modify-login_of id j (on_verification_required v) s)

pub started-login_of :
    (id j : String) (import_error : Option String) (s : LoginService)
    → login_of j (begin id import_error s)
      ≡ (if id == j then begun import_error (login_of j s) else login_of j s)
unfolding begin login_of
started-login_of id j import_error s = by_task import_error (lookup id s.background_tasks) refl
  where
    by_task :
        (import_error : Option String) (o : Option Task)
        → lookup id s.background_tasks ≡ o
        → login_of j (elim o as (λ _. LoginService) [
          | none ↦ s
          | some task ↦ if task.started || task.cancel_requested then s else elim import_error [
            | some exc ↦
                modify id
                  (raise_in exc)
                  (record s { background_tasks = erase id s.background_tasks })
            | none ↦
                modify id
                  (λ session. record session { message = "正在启动浏览器并执行登录..." })
                  (record s {
                    background_tasks =
                        insert id (record task { started = true }) s.background_tasks;
                    threads = insert id tt s.threads;
                  })
          ]
        ])
          ≡ (if id == j then begun import_error (login_of j s) else login_of j s)
    by_task import_error none h = ground (arith, eq_iff id j)
    by_task none (some task) h = ground (
      arith,
      eq_iff id j,
      lookup-insert id j (record task { started = true }) s.background_tasks,
      lookup-insert id j tt s.threads,
      modify-login_of id j (λ session. record session { message = "正在启动浏览器并执行登录..." })
          (record s {
            background_tasks = insert id (record task { started = true }) s.background_tasks;
            threads = insert id tt s.threads;
          }),
    )
    by_task (some exc) (some task) h = ground (
      arith,
      eq_iff id j,
      lookup-erase id j s.background_tasks,
      modify-login_of id j (raise_in exc)
          (record s { background_tasks = erase id s.background_tasks }),
    )

pub thrown-login_of :
    (id j : String) (s : LoginService)
    → login_of j (deliver_cancel id s) ≡ (if id == j then thrown (login_of j s) else login_of j s)
unfolding deliver_cancel login_of
thrown-login_of id j s = by_task (lookup id s.background_tasks) refl
  where
    by_task :
        (o : Option Task)
        → lookup id s.background_tasks ≡ o
        → login_of j (elim o as (λ _. LoginService) [
          | none ↦ s
          | some task ↦
              if task.cancel_requested
              then (let rest = record s { background_tasks = erase id s.background_tasks } in
                  if task.started then modify id (set_status cancelled "登录任务已取消") rest else rest)
              else s
        ])
          ≡ (if id == j then thrown (login_of j s) else login_of j s)
    by_task none h = ground (arith, eq_iff id j)
    by_task (some task) h = ground (
      arith,
      eq_iff id j,
      lookup-erase id j s.background_tasks,
      modify-login_of id j (set_status cancelled "登录任务已取消")
          (record s { background_tasks = erase id s.background_tasks }),
    )
