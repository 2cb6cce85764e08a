-- ===== src/Services/LoginService/Tasks/Histories.antt =====
-- app/services/login_service.py: the events of one login, and what they keep.
use xianyu_manager.Services.ReplyPolicy.Candidates.{keep}
use xianyu_manager.Services.LoginService.Tasks.Machine.{
  Event, Login, cancel, created, local, started, cancel_delivered, called_back, thread_ended, owner,
  history,
}
use xianyu_manager.Services.LoginService.{PasswordLoginSession, Task}
use xianyu_manager.Prelude.{
  Bool, Option, String, [], arith, false, if◌then◌else◌, none, refl, some, true, ◌&&◌, ◌||◌, ◌∷◌,
  ◌≡◌, ◌+◌, ◌==◌, Bool-cases, List, inl, inr, subst, sym, ℕ, ◌≤◌, ap,
}

-- The creation of a login that exists already.
abbrev pub collides : Event → Option PasswordLoginSession → Bool
collides (created _ _ _ _) (some _) = true
collides _ _ = false

-- How many events create a login, and how many of it there are.
abbrev pub creations : String → List Event → ℕ
creations id [] = 0
creations id (created k _ _ _ ∷ es) = (if k == id then 1 else 0) + creations id es
creations id (_ ∷ es) = creations id es

abbrev pub present : Option PasswordLoginSession → ℕ
present none = 0
present (some _) = 1

abbrev one : Event → ℕ
one (created _ _ _ _) = 1
one _ = 0

creations-cons :
    (id : String) (e : Event) (es : List Event)
    → creations id (e ∷ es) ≡ (if owner e == id then one e else 0) + creations id es
creations-cons id (created k c n q) es = refl
creations-cons id (cancel k) es = ground arith
creations-cons id (started k i) es = ground arith
creations-cons id (cancel_delivered k) es = ground arith
creations-cons id (called_back k v) es = ground arith
creations-cons id (thread_ended k b o) es = ground arith

local-present :
    (e : Event) (p : Option PasswordLoginSession) (t : Option Task) (b : Bool)
    → present (local e (record { session = p; task = t; thread = b })).session ≤ present p + one e
unfolding local
local-present (created id c n q) p t b = ground arith
local-present (cancel id) p t b = ground arith
local-present (started id i) p t b = ground arith
local-present (cancel_delivered id) p t b = ground arith
local-present (called_back id v) p t b = ground arith
local-present (thread_ended id db_ok o) p t b = ground arith

collides-one :
    (e : Event) (p : Option PasswordLoginSession) → one e + present p ≤ 1 → collides e p ≡ false
collides-one (created id c n q) none h = refl
collides-one (created id c n q) (some p) h = absurd (omega (arith, h))
collides-one (cancel id) p h = refl
collides-one (started id i) p h = refl
collides-one (cancel_delivered id) p h = refl
collides-one (called_back id v) p h = refl
collides-one (thread_ended id b o) p h = refl

own_event :
    (id : String) (e : Event) (es : List Event) (l : Login)
    → owner e == id ≡ true
    → creations id (e ∷ es) + present l.session ≤ 1
    → (creations id es + present (local e l).session ≤ 1) × (collides e l.session ≡ false)
own_event id e es l own h = (
  ground (arith, creations-cons id e es, local-present e l.session l.task l.thread),
  collides-one e l.session (ground (arith, creations-cons id e es)),
)

other_event :
    (id : String) (e : Event) (es : List Event) (n : ℕ)
    → creations id (e ∷ es) + n ≤ 1
    → creations id es + n ≤ 1
other_event id e es n h = ground (arith, creations-cons id e es)

-- Whether a login has an event of a kind.
abbrev pub any_own : (Event → Bool) → String → List Event → Bool
any_own kind id [] = false
any_own kind id (e ∷ es) = (owner e == id && kind e) || any_own kind id es

own_kind :
    (kind : Event → Bool) (id : String) (e : Event) (es : List Event)
    → owner e == id ≡ true
    → any_own kind id (e ∷ es) ≡ false
    → (kind e ≡ false) × (any_own kind id es ≡ false)
own_kind kind id e es own h = (ground arith, ground arith)

other_kind :
    (kind : Event → Bool) (id : String) (e : Event) (es : List Event)
    → any_own kind id (e ∷ es) ≡ false
    → any_own kind id es ≡ false
other_kind kind id e es h = ground arith

-- A predicate that every event of a login keeps, if the event is not of a kind and does not create the
-- login again.
pub history-keeps :
    (kind : Event → Bool) (P : Login → Type 0) (id : String)
    → ((e : Event) (l : Login)
        → kind e ≡ false
        → collides e l.session ≡ false
        → P l
        → P (local e l))
    → (es : List Event) (l : Login) → any_own kind id es ≡ false
    → creations id es + present l.session ≤ 1
    → P l
    → P (history id es l)
unfolding history
history-keeps kind P id keep [] l unmet h g = g
history-keeps kind P id keep (e ∷ es) l unmet h g = elim (Bool-cases (owner e == id)) [
  | inl own ↦
      let (bound, distinct) = own_event id e es l own h in
      let (mild, unmet_later) = own_kind kind id e es own unmet in
      subst (λ b. P (history id es (if b then local e l else l))) (sym own)
        (history-keeps kind P id keep es (local e l) unmet_later bound (keep e l mild distinct g))
  | inr other ↦
      subst (λ b. P (history id es (if b then local e l else l))) (sym other)
        (history-keeps kind P id keep es l (other_kind kind id e es unmet)
          (other_event id e es (present l.session) h) g)
]

abbrev pub no_kind : Event → Bool
no_kind _ = false

pub any_own-no_kind : (id : String) (es : List Event) → any_own no_kind id es ≡ false
any_own-no_kind id [] = refl
any_own-no_kind id (e ∷ es) = ground (arith, any_own-no_kind id es)

pub history-present :
    (id : String) (es : List Event) (l : Login)
    → present (history id es l).session ≤ present l.session + creations id es
unfolding history
history-present id [] l = omega arith
history-present id (e ∷ es) l = elim (Bool-cases (owner e == id)) [
  | inl own ↦
      subst
        (λ b.
          present (history id es (if b then local e l else l)).session
          ≤ present l.session + creations id (e ∷ es))
        (sym own)
        (ground (
          arith,
          creations-cons id e es,
          local-present e l.session l.task l.thread,
          history-present id es (local e l),
        ))
  | inr other ↦
      subst
        (λ b.
          present (history id es (if b then local e l else l)).session
          ≤ present l.session + creations id (e ∷ es))
        (sym other) (ground (arith, creations-cons id e es, history-present id es l))
]

abbrev pub is_cancel : Event → Bool
is_cancel (cancel _) = true
is_cancel _ = false

pub history-own :
    (id : String) (e : Event) (es : List Event) (l : Login)
    → owner e == id ≡ true
    → history id (e ∷ es) l ≡ history id es (local e l)
unfolding history
history-own id e es l own = ap (λ b. history id es (if b then local e l else l)) own
