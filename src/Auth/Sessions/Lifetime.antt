-- ===== src/Auth/Sessions/Lifetime.antt =====
-- A session is valid from its creation to its expiry, unless it is revoked.
use xianyu_manager.Dict.Keys.{lookup-erase_where}
use xianyu_manager.Dict.Laws.{lookup-erase, lookup-insert, lookup-insert_self}
use xianyu_manager.Dict.{lookup, is_some, contains}
use xianyu_manager.Auth.Sessions.{
  SessionEntry, SessionStore, cleanup_expired, create_session, get_session, revoke_session,
  validate_session, is_expired, find_live,
}
use xianyu_manager.Prelude.{
  List, String, [], some, ℕ, ◌∷◌, ◌≡◌, ◌≤◌, ◌*◌, ◌+◌, ◌<◌, ◌==◌, Bool, Option, arith, eq_iff, false,
  leb, none, ◌⊎◌, inl, not,
}
use xianyu_manager.Dict.Sizes.{
  IsDistinct, erase-IsDistinct, erase_all-IsDistinct, insert-IsDistinct,
}

pub data Call : Type 0 where
  create : String → ℕ → Call
  validate get revoke : String → Call
  cleanup : Call

-- One call of the store, at its time.
pub step : ℕ → Call → SessionStore → SessionStore
step now (create token ttl) s = (create_session now token ttl s).1
step now (validate token) s = (validate_session now token s).1
step now (get token) s = (get_session now token s).1
step now (revoke token) s = revoke_session token s
step now cleanup s = (cleanup_expired now s).1

pub run : List (ℕ × Call) → SessionStore → SessionStore
unfolding step
run [] s = s
run ((now, c) ∷ cs) s = run cs (step now c s)

-- A call that removes the token on purpose, or creates it anew.
abbrev pub touches : String → Call → Bool
touches token (create token' _) = token' == token
touches token (revoke token') = token' == token
touches token _ = false

-- Calls whose times do not go back, from `before` to `last`, and which do not touch the token.
abbrev pub Spares : String → ℕ → List (ℕ × Call) → ℕ → Type 0
Spares token before [] last = before ≤ last
Spares token before ((now, c) ∷ cs) last =
    (before ≤ now) × (touches token c ≡ false) × Spares token now cs last

-- The sessions are keyed by distinct tokens.
abbrev pub IsStore : SessionStore → Type 0
IsStore s = IsDistinct s.sessions

pub create_session-IsStore :
    (now : ℕ) (token : String) (ttl : ℕ) (s : SessionStore)
    → IsStore s
    → IsStore (create_session now token ttl s).1
unfolding create_session
create_session-IsStore now token ttl s h = ground (
  arith,
  insert-IsDistinct token
      (record { token = token; created_at = now; expires_at = now + ttl * 1000 }) s.sessions h,
)

find_live-IsStore :
    (now : ℕ) (token : String) (s : SessionStore) (o : Option SessionEntry)
    → IsStore s
    → IsStore (find_live now token s o).1
unfolding find_live
find_live-IsStore now token s none h = h
find_live-IsStore now token s (some e) h = ground (arith, erase-IsDistinct token s.sessions h)

pub step-IsStore : (now : ℕ) (c : Call) (s : SessionStore) → IsStore s → IsStore (step now c s)
unfolding step validate_session get_session revoke_session cleanup_expired
step-IsStore now (create token ttl) s h = create_session-IsStore now token ttl s h
step-IsStore now (validate token) s h = find_live-IsStore now token s (lookup token s.sessions) h
step-IsStore now (get token) s h = find_live-IsStore now token s (lookup token s.sessions) h
step-IsStore now (revoke token) s h = erase-IsDistinct token s.sessions h
step-IsStore now cleanup s h = erase_all-IsDistinct _ s.sessions h

-- The entry is there, or it has expired and is gone.
abbrev IsOrWas : SessionEntry → ℕ → Option SessionEntry → Type 0
IsOrWas e now o = (o ≡ some e) ⊎ ((o ≡ none) × (e.expires_at < now))

find_live-IsOrWas :
    (before now : ℕ) (k token : String) (e : SessionEntry) (s : SessionStore)
    → before ≤ now
    → IsOrWas e before (lookup token s.sessions)
    → IsOrWas e now (lookup token (find_live now k s (lookup k s.sessions)).1.sessions)
unfolding find_live
find_live-IsOrWas before now k token e s le was =
    ground (arith, lookup-erase k token s.sessions, eq_iff k token)

step-IsOrWas :
    (before now : ℕ) (c : Call) (token : String) (e : SessionEntry) (s : SessionStore)
    → IsStore s
    → before ≤ now
    → touches token c ≡ false
    → IsOrWas e before (lookup token s.sessions)
    → IsOrWas e now (lookup token (step now c s).sessions)
unfolding step validate_session get_session revoke_session cleanup_expired create_session
step-IsOrWas before now (create k ttl) token e s h le spared was = ground (
  arith,
  lookup-insert k token (record { token = k; created_at = now; expires_at = now + ttl * 1000 })
      s.sessions,
)
step-IsOrWas before now (validate k) token e s h le spared was =
    find_live-IsOrWas before now k token e s le was
step-IsOrWas before now (get k) token e s h le spared was =
    find_live-IsOrWas before now k token e s le was
step-IsOrWas before now (revoke k) token e s h le spared was =
    ground (arith, lookup-erase k token s.sessions)
step-IsOrWas before now cleanup token e s h le spared was =
    ground (arith, lookup-erase_where (λ _ x. is_expired now x) token s.sessions h)

run-IsOrWas :
    (before last : ℕ) (cs : List (ℕ × Call)) (token : String) (e : SessionEntry) (s : SessionStore)
    → IsStore s
    → Spares token before cs last
    → IsOrWas e before (lookup token s.sessions)
    → IsOrWas e last (lookup token (run cs s).sessions)
unfolding run
run-IsOrWas before last [] token e s h le was = ground arith
run-IsOrWas before last ((now, c) ∷ cs) token e s h sp was =
    run-IsOrWas now last cs token e (step now c s) (step-IsStore now c s h) sp.2
      (step-IsOrWas before now c token e s h sp.0 sp.1 was)

find_live-decides :
    (now : ℕ) (token : String) (e : SessionEntry) (s : SessionStore)
    → IsOrWas e now (lookup token s.sessions)
    → is_some (find_live now token s (lookup token s.sessions)).0 ≡ leb now e.expires_at
unfolding find_live
find_live-decides now token e s was = ground arith

abbrev pub entry : ℕ → String → ℕ → SessionEntry
entry now token ttl_seconds = record {
  token = token;
  created_at = now;
  expires_at = now + ttl_seconds * 1000;
}

pub lookup-create_session :
    (now : ℕ) (token : String) (ttl_seconds : ℕ) (s : SessionStore)
    → lookup token s.sessions ≡ none
    → lookup token (create_session now token ttl_seconds s).1.sessions
      ≡ some (entry now token ttl_seconds)
unfolding create_session
lookup-create_session now token ttl_seconds s new =
    rw new (lookup-insert_self token (entry now token ttl_seconds) s.sessions)

-- A session is created exactly if the token is new.
pub create_session_some :
    (now : ℕ) (token : String) (ttl_seconds : ℕ) (s : SessionStore)
    → is_some (create_session now token ttl_seconds s).0 ≡ not (contains token s.sessions)
unfolding create_session
create_session_some now token ttl_seconds s = ground arith

-- A session that was created at `now` is valid at a later time exactly if that time is at most
-- `ttl_seconds` after `now`: whatever other sessions were created, looked at, revoked or cleaned up
-- in between, if this token was neither revoked nor created again and the clock did not go back.
pub validate_session-create_session :
    (now last : ℕ) (token : String) (ttl_seconds : ℕ) (cs : List (ℕ × Call)) (s : SessionStore)
    → IsStore s
    → lookup token s.sessions ≡ none
    → Spares token now cs last
    → (validate_session last token (run cs (create_session now token ttl_seconds s).1)).0
      ≡ leb last (now + ttl_seconds * 1000)
unfolding validate_session
validate_session-create_session now last token ttl_seconds cs s h new sp =
    find_live-decides last token (entry now token ttl_seconds)
      (run cs (create_session now token ttl_seconds s).1)
      (run-IsOrWas now last cs token (entry now token ttl_seconds)
        (create_session now token ttl_seconds s).1
        (create_session-IsStore now token ttl_seconds s h) sp
        (inl (lookup-create_session now token ttl_seconds s new)))
