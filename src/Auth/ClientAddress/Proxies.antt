-- ===== src/Auth/ClientAddress/Proxies.antt =====
-- app/api/routers/auth.py: what a header that a proxy has appended to gives.
use xianyu_manager.Auth.ClientAddress.{
  IpAddress, Request, get_client_ip, is_link_local, is_loopback, is_private, is_trusted_proxy,
}
use xianyu_manager.Text.{split_on, strip}
use xianyu_manager.Prelude.{
  Bool, Option, String, arith, false, if◌then◌else◌, refl, some, true, ℕ, ◌==ℕ◌, ◌==◌, ◌||◌, ◌≡◌,
  ◌∙◌, ap, List, ◌∷◌,
}
use Prim.Native.Char.{Char, char, code}
use Prim.Native.String.append as Append
use Prim.Native.String.{◌++◌ as ◌⊕◌}

-- `c in text`, for one character by its code.
unfoldable pub has_char : ℕ → String → Bool
has_char n String.[] = false
has_char n (String.◌∷◌ c text) = code c ==ℕ n || has_char n text

nil-append : (t : String) → "" ⊕ t ≡ t
nil-append t = λ i. Append.nil t i

cons-append : (c : Char) (s t : String) → String.◌∷◌ c s ⊕ t ≡ String.◌∷◌ c (s ⊕ t)
cons-append c s t = λ i. Append.cons c s t i

-- The first part of a text is what is in front of its first separator.
split_on-first :
    (n : ℕ) (x rest : String)
    → has_char n x ≡ false
    → (split_on n rest).0 ≡ ""
    → (split_on n (x ⊕ rest)).0 ≡ x
unfolding split_on has_char
split_on-first n String.[] rest h k = ap (λ t. (split_on n t).0) (nil-append rest) ∙ k
split_on-first n (String.◌∷◌ c x) rest h k =
    ap (λ t. (split_on n t).0) (cons-append c x rest)
    ∙ by_char (code c ==ℕ n) (has_char n x) h (λ d. split_on-first n x rest d k)
  where
    by_char :
        (b d : Bool)
        → (b || d) ≡ false
        → (d ≡ false → (split_on n (x ⊕ rest)).0 ≡ x)
        → let parts : String × List String =
            if b
            then ("", (split_on n (x ⊕ rest)).0 ∷ (split_on n (x ⊕ rest)).1)
            else (String.◌∷◌ c (split_on n (x ⊕ rest)).0, (split_on n (x ⊕ rest)).1) in
          parts.0 ≡ String.◌∷◌ c x
    by_char false false g e = ap (String.◌∷◌ c) (e refl)
    by_char false true g e = absurd (ground (arith, g))
    by_char true d g e = absurd (ground (arith, g))

split_on-comma : (t : String) → (split_on 44 (", " ⊕ t)).0 ≡ ""
unfolding split_on
split_on-comma t = ap (λ u. (split_on 44 u).0) (cons-append (char 44 tt) " " t)

-- Behind a trusted proxy that appends the address it sees to the header `X-Forwarded-For`, a login counts
-- for whatever text the client itself sent in that header, if it has no comma and is not blank: not for
-- the address of the client.
pub get_client_ip-appended :
    (ip_address : String → Option IpAddress) (host x seen : String) (real_ip : Option String)
    → is_trusted_proxy ip_address host ≡ true
    → has_char 44 x ≡ false
    → (strip x == "") ≡ false
    → get_client_ip ip_address
        (record { client_host = host; forwarded_for = some (x ⊕ ", " ⊕ seen); real_ip = real_ip })
      ≡ strip x
unfolding get_client_ip
get_client_ip-appended ip_address host x seen real_ip t g h =
    ground (arith, split_on-first 44 x (", " ⊕ seen) g (split_on-comma seen))

-- The number of an address of version 4 that no range of trusted proxies has.
abbrev pub IsPublic : IpAddress → Type 0
IsPublic ip = (is_loopback ip || is_link_local ip || is_private ip) ≡ false

-- A login that comes straight from a public address counts for this address, whatever its headers are.
pub get_client_ip-direct :
    (ip_address : String → Option IpAddress) (ip : IpAddress) (request : Request)
    → ip_address request.client_host ≡ some ip
    → IsPublic ip
    → (request.client_host == "") ≡ false
    → (request.client_host == "testclient") ≡ false
    → get_client_ip ip_address request ≡ request.client_host
unfolding get_client_ip is_trusted_proxy
get_client_ip-direct ip_address ip request g h k l = ground arith
