-- ===== src/Auth/ClientAddress/Examples.antt =====
-- Addresses of clients, and the theorems at them.
use xianyu_manager.Auth.ClientAddress.Proxies.{
  get_client_ip-appended, get_client_ip-direct, has_char,
}
use xianyu_manager.Auth.ClientAddress.{
  IpAddress, Request, get_client_ip, is_trusted_proxy, v4, strip, is_link_local, is_loopback,
  is_private,
}
use xianyu_manager.Prelude.{Option, String, if◌then◌else◌, none, refl, some, ◌==◌, ◌≡◌}
use Prim.Native.String.{◌++◌ as ◌⊕◌}

-- The addresses of the tests of the source: 10.0.0.5, a proxy, and 203.0.113.5.
abbrev parsed : String → Option IpAddress
parsed text =
    if text == "10.0.0.5"
    then some (v4 167772165)
    else if text == "203.0.113.5"
    then some (v4 3405803781)
    else none

abbrev direct : Request
direct = record { client_host = "203.0.113.5"; forwarded_for = some "198.51.100.8"; real_ip = none }

direct_address : get_client_ip parsed direct ≡ "203.0.113.5"
unfolding xianyu_manager.Auth.ClientAddress.is_loopback
    xianyu_manager.Auth.ClientAddress.is_link_local xianyu_manager.Auth.ClientAddress.is_private
direct_address = get_client_ip-direct parsed (v4 3405803781) direct refl refl refl refl

get_client_ip-appended_example :
    get_client_ip parsed (record {
      client_host = "10.0.0.5";
      forwarded_for = some ("7" ⊕ ", " ⊕ "203.0.113.5");
      real_ip = some "203.0.113.5";
    })
    ≡ strip "7"
unfolding is_trusted_proxy has_char xianyu_manager.Text.strip
get_client_ip-appended_example =
    get_client_ip-appended parsed "10.0.0.5" "7" "203.0.113.5" (some "203.0.113.5") refl refl refl
