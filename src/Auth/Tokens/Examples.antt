-- ===== src/Auth/Tokens/Examples.antt =====
-- Requests with a header or a cookie, and the theorem at a request.
use xianyu_manager.Auth.Tokens.{token_of_request, verify_token}
use xianyu_manager.Auth.Tokens.Requests.{beside_header, verify_token-Shows}
use xianyu_manager.Dict.{lookup}
use xianyu_manager.Text.{is_space, lstrip_by, rstrip_by, strip, strip_by}
use xianyu_manager.Auth.Sessions.{create_session}
use xianyu_manager.Prelude.{
  ◌*◌, ◌+◌, List, [], arith, if◌then◌else◌, leb, none, refl, some, ℕ, ◌∷◌, ◌≡◌,
}
use xianyu_manager.Auth.Sessions
use xianyu_manager.Auth.Sessions.Lifetime.{Call, run, validate, create, cleanup}

shown :
    (token_of_request (some "Bearer  a ") (some "b") ≡ "a")
    × (token_of_request (some "Basic a") (some " b") ≡ "b")
    × (token_of_request none none ≡ "")
unfolding token_of_request strip strip_by lstrip_by rstrip_by is_space
shown = (refl, refl, refl)

abbrev others : List (ℕ × Call)
others = (2000, validate "a") ∷ (3000, create "b" 60) ∷ (79000000, cleanup) ∷ []

verify_token-Shows_example :
    (verify_token 80000000
      (some "Basic x")
      (some " a")
      (run others (Sessions.create_session 1000 "a" 86400 Sessions.init).1)).0
    ≡ (if leb 80000000 (1000 + 86400 * 1000) then some "a" else none)
unfolding lookup strip strip_by lstrip_by rstrip_by is_space
verify_token-Shows_example =
    verify_token-Shows 1000 80000000 "a" 86400 others Sessions.init (some "Basic x") (some " a")
      (beside_header " a" "Basic x" refl refl) refl tt refl (ground arith)
