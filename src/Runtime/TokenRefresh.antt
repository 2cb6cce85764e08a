-- ===== src/Runtime/TokenRefresh.antt =====
-- app/runtime/token_refresh.py: the merge of cookies, the token in them, and the count of refreshes. A
-- `dict` of cookies is a `Dict`; the order of the protected fields, a set in Python, is that of the
-- list. Recovery from a captcha is not modelled.
pub mod Merge
mod Examples
use xianyu_manager.Text.{strip, split_on}
use xianyu_manager.Dict.{Dict, insert, lookup}
use xianyu_manager.Prelude.{
  ◌+◌, ◌==◌, ◌==ℕ◌, Bool, List, Option, String, [], false, if◌then◌else◌, none, some, ℕ, ◌∷◌,
}
use Prim.Native.String as Chars
use text.Mathlib.Text.{starts_with}

abbrev pub protected_cookie_fields : List String
protected_cookie_fields = "_m_h5_tk" ∷ "_m_h5_tk_enc" ∷ "cookie2" ∷ "t" ∷ "uc1" ∷ "unb" ∷ []

pub record TokenRefreshService : Type 0 where
  pub account_id : String
  pub refresh_count : ℕ

-- `none` is the `TokenRefreshError` of the constructor and of `trigger_refresh`.
unfoldable pub init : String → Option TokenRefreshService
init account_id =
    if account_id == "" then none else some (record { account_id = account_id; refresh_count = 0 })

-- The loop over the protected fields.
unfoldable pub restore : List String → Dict String → Dict String → Dict String
restore [] existing merged = merged
restore (k ∷ ks) existing merged =
    restore ks existing (elim (lookup k existing) [ none ↦ merged | some v ↦ insert k v merged ])

-- `{**incoming}`, where `existing` has a protected field with the field's value there.
unfoldable pub merge_cookies_protected : Dict String → Dict String → List String → Dict String
unfolding restore
merge_cookies_protected existing incoming protected_fields =
    restore protected_fields existing incoming

-- The refresh is a stub that returns `False`.
unfoldable pub trigger_refresh :
    Option String → Option String → TokenRefreshService → Option Bool × TokenRefreshService
trigger_refresh none token s = (none, s)
trigger_refresh (some cookie_str) none s = (none, s)
trigger_refresh (some cookie_str) (some token) s =
    if cookie_str == ""
    then (none, s)
    else (some false, record s { refresh_count = s.refresh_count + 1 })

-- The token of one cookie, in which a timestamp may stand behind `_`.
unfoldable pub token_of : String → Option String
unfolding split_on
token_of part =
    if starts_with part "_m_h5_tk="
    then some (split_on 95 (Chars.slice part 9 (Chars.len part))).0
    else none

unfoldable pub first_token : List String → Option String
unfolding token_of strip
first_token [] = none
first_token (part ∷ parts) = elim (token_of (strip part)) [
  | some token ↦ some token
  | none ↦ first_token parts
]

unfoldable pub parse_token_from_cookies : String → Option String
unfolding first_token split_on
parse_token_from_cookies cookie_str =
    if cookie_str == ""
    then none
    else let (part, parts) = split_on 59 cookie_str in first_token (part ∷ parts)
