-- ===== src/Auth/ClientAddress.antt =====
-- app/api/routers/auth.py: the address of the client of a login, which the limiter counts failures for.
-- `ipaddress.ip_address` is a parameter: the number of an address, or none for a text that is not one.
pub mod Proxies
mod Examples
use xianyu_manager.Text.{split_on, strip}
use xianyu_manager.Prelude.{
  Bool, Option, String, false, if◌then◌else◌, none, some, true, ℕ, ◌==ℕ◌, ◌==◌, ◌||◌, leb, ◌&&◌,
}

-- The 32 bits of an address of version 4, or the 128 bits of one of version 6, as a number.
pub data IpAddress : Type 0 where
  v4 v6 : ℕ → IpAddress

pub record Request : Type 0 where
  pub client_host : String
  pub forwarded_for : Option String
  pub real_ip : Option String

-- `ip in network`: the addresses from the first one to the last one of the network.
abbrev within : ℕ → ℕ → ℕ → Bool
within first last n = leb first n && leb n last

-- 127.0.0.0/8, and `::1`.
unfoldable pub is_loopback : IpAddress → Bool
is_loopback (v4 n) = within 2130706432 2147483647 n
is_loopback (v6 n) = n ==ℕ 1

-- 169.254.0.0/16, and fe80::/10.
unfoldable pub is_link_local : IpAddress → Bool
is_link_local (v4 n) = within 2851995648 2852061183 n
is_link_local (v6 n) =
    within 338288524927261089654018896841347694592 338620831926207318622244848606417780735 n

-- 10.0.0.0/8, 172.16.0.0/12 and 192.168.0.0/16, and fc00::/7.
unfoldable pub is_private : IpAddress → Bool
is_private (v4 n) =
    within 167772160 184549375 n || within 2886729728 2887778303 n || within 3232235520 3232301055 n
is_private (v6 n) =
    within 334965454937798799971759379190646833152 337623910929368631717566993311207522303 n

unfoldable pub is_trusted_proxy : (String → Option IpAddress) → String → Bool
unfolding is_loopback is_link_local is_private
is_trusted_proxy ip_address client_host =
    if client_host == ""
    then false
    else if client_host == "testclient"
    then true
    else elim (ip_address client_host) [
      | none ↦ client_host == "localhost"
      | some ip ↦ is_loopback ip || is_link_local ip || is_private ip
    ]

-- `(headers.get(name) or "")`
abbrev pub header : Option String → String
header none = ""
header (some text) = text

-- A request without a client has the empty host.
unfoldable pub get_client_ip : (String → Option IpAddress) → Request → String
unfolding is_trusted_proxy
get_client_ip ip_address request =
    let forwarded = strip (split_on 44 (header request.forwarded_for)).0 in
    let real_ip = strip (header request.real_ip) in
    let direct = if request.client_host == "" then "unknown" else request.client_host in
    if is_trusted_proxy ip_address request.client_host
    then (if forwarded == "" then (if real_ip == "" then direct else real_ip) else forwarded)
    else direct
