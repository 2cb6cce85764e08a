-- ===== src/Auth/Sessions/Examples.antt =====
-- Runs of the session store, and the theorem at inputs that meet its hypotheses.
use xianyu_manager.Dict.{insert, lookup}
use xianyu_manager.Auth.Sessions.{SessionStore, create_session, init, validate_session}
use xianyu_manager.Prelude.{List, [], arith, false, none, refl, ℕ, ◌∷◌, ◌≡◌}
use xianyu_manager.Auth.Sessions.Lifetime.{
  Call, validate_session-create_session, validate, run, create, revoke, cleanup,
}

abbrev others : List (ℕ × Call)
others =
    (2000, validate "a") ∷ (3000, create "b" 60) ∷ (4000, revoke "c") ∷ (90000000, cleanup) ∷ []

abbrev one_session : SessionStore
one_session = (create_session 1000 "a" 86400 init).1

created_twice : (create_session 2000 "a" 60 one_session).0 ≡ none
unfolding create_session lookup insert
created_twice = refl

validate_session-create_session_example :
    (validate_session 90000001 "a" (run others (create_session 1000 "a" 86400 init).1)).0 ≡ false
unfolding lookup
validate_session-create_session_example =
    validate_session-create_session 1000 90000001 "a" 86400 others init tt refl (ground arith)
