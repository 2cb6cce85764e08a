-- ===== src/Runtime/TokenRefresh/Examples.antt =====
-- Cookies of a seller, and the theorem at a merge.
use xianyu_manager.Text.{strip}
use xianyu_manager.Runtime.TokenRefresh.Merge.{merge_cookies_protected-lookup, prefer}
use xianyu_manager.Runtime.TokenRefresh.{
  first_token, merge_cookies_protected, parse_token_from_cookies, protected_cookie_fields, restore,
  token_of,
}
use xianyu_manager.Prelude.{String, [], none, refl, some, ◌∷◌, ◌≡◌}
use xianyu_manager.Dict.{Dict, insert, lookup, mem}

abbrev existing : Dict String
existing = ("unb", "1") ∷ ("_m_h5_tk", "abc_17") ∷ ("x", "old") ∷ []

abbrev incoming : Dict String
incoming = ("_m_h5_tk", "zzz") ∷ ("y", "new") ∷ []

merged :
    merge_cookies_protected existing incoming protected_cookie_fields
    ≡ ("_m_h5_tk", "abc_17") ∷ ("y", "new") ∷ ("unb", "1") ∷ []
unfolding merge_cookies_protected restore lookup insert
merged = refl

tokens :
    (parse_token_from_cookies "unb=1; _m_h5_tk=abc_17; t=2" ≡ some "abc")
    × (parse_token_from_cookies "unb=1" ≡ none)
unfolding parse_token_from_cookies first_token token_of strip
tokens = (refl, refl)

merge_cookies_protected-lookup_example :
    lookup "unb" (merge_cookies_protected existing incoming protected_cookie_fields)
    ≡ prefer (mem "unb" protected_cookie_fields) (lookup "unb" existing) (lookup "unb" incoming)
merge_cookies_protected-lookup_example =
    merge_cookies_protected-lookup existing incoming protected_cookie_fields "unb"
