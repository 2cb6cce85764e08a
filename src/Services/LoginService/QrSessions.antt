-- ===== src/Services/LoginService/QrSessions.antt =====
-- app/services/login_service.py: the count of QR sessions, and requests of password logins.
use xianyu_manager.Auth.Login.{answer}
use xianyu_manager.Dict.{Dict, insert, lookup}
use xianyu_manager.Dict.Laws.{lookup-insert, lookup-insert_self}
use xianyu_manager.Services.LoginService.{
  LoginRequest, LoginService, QrLoginSession, active_session_count, create_password_session,
  count_live, expired, get_password_session, invalidate_session, new_session, new_task,
}
use xianyu_manager.Prelude.{
  Option, String, [], arith, eq_iff, none, refl, some, ℕ, ◌∷◌, ◌≡◌, ◌≢◌, ◌↔◌,
}

count_live-insert :
    (now : ℕ) (id : String) (session : QrLoginSession) (d : Dict QrLoginSession)
    → lookup id d ≡ some session
    → count_live now (insert id (record session { status = expired }) d) ≡ count_live now d
unfolding count_live insert lookup
count_live-insert now id session [] h = absurd (ground arith)
count_live-insert now id session ((k, found) ∷ d) h =
    ground (arith, count_live-insert now id session d)

-- Invalidating a QR session does not change the count of active sessions, at any time: an invalidated
-- one still counts until its time is over.
pub active_session_count-invalidate_session :
    (now : ℕ) (id : String) (s : LoginService)
    → active_session_count now (invalidate_session id s) ≡ active_session_count now s
unfolding active_session_count invalidate_session
active_session_count-invalidate_session now id s = by_lookup (lookup id s.active_sessions) refl
  where
    by_lookup :
        (o : Option QrLoginSession)
        → lookup id s.active_sessions ≡ o
        → count_live now
            (elim o as (λ _. LoginService) [
              | none ↦ s
              | some session ↦ record s {
                active_sessions = insert id (record session { status = expired }) s.active_sessions;
              }
            ]).active_sessions
          ≡ count_live now s.active_sessions
    by_lookup none h = refl
    by_lookup (some session) h = count_live-insert now id session s.active_sessions h

-- What a request may not leave empty.
abbrev pub IsComplete : LoginRequest → Type 0
IsComplete q = (q.username ≢ "") × (q.password ≢ "") × (q.account_id ≢ "")

-- A request for a password login is accepted exactly if it has a user name, a password and an account.
-- One that is not leaves the service as it was. One that is puts a new session and its task in place,
-- and leaves every other session.
pub create_password_session-accepts :
    (id : String) (c now : ℕ) (q : LoginRequest) (s : LoginService)
    → let (answer, s') = create_password_session id c now q s in
      ((answer ≡ none) ↔ IsComplete q)
      × ((answer ≢ none) → s' ≡ s)
      × (IsComplete q
          → (get_password_session id s' ≡ some (new_session id c now q))
            × (lookup id s'.background_tasks ≡ some (new_task q.password)))
      × ((j : String) → j ≢ id → get_password_session j s' ≡ get_password_session j s)
unfolding create_password_session get_password_session
create_password_session-accepts id c now q s = (
  (
    λ h. ground (arith, eq_iff q.username "", eq_iff q.password "", eq_iff q.account_id ""),
    λ h. ground (arith, eq_iff q.username "", eq_iff q.password "", eq_iff q.account_id ""),
  ),
  λ h. ground arith,
  λ h. ground (
    arith,
    eq_iff q.username "",
    eq_iff q.password "",
    eq_iff q.account_id "",
    lookup-insert_self id (new_session id c now q) s.password_sessions,
    lookup-insert_self id (new_task q.password) s.background_tasks,
  ),
  λ j h.
      ground (arith, eq_iff id j, lookup-insert id j (new_session id c now q) s.password_sessions),
)
