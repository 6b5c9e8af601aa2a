-- ===== src/Restream/Target/Tests.antt =====
-- Examples of server URLs (apps/web/src/server/restream/target.ts).
use streambrew.Base.{◌≡◌, refl, true, false, [], ◌++◌, Text, codes, none, some}
use streambrew.Restream.Target.{
  UrlLibrary, is_private_ipv4, is_private_ipv6, is_plain, is_private_host, unbracketed,
  normalize_restream_server_url,
}

private_172 : is_private_ipv4 (codes "172.20.0.1") ≡ true
unfolding is_private_ipv4
private_172 = refl

public_172 : is_private_ipv4 (codes "172.32.0.1") ≡ false
unfolding is_private_ipv4
public_172 = refl

link_local : is_private_ipv6 (codes "FE80::1") ≡ true
unfolding is_private_ipv6
link_local = refl

bracketed : ◌≡◌ {A = Text} (unbracketed (codes "[::1]")) (codes "::1")
bracketed = refl

-- A parser that finds one host, as it is written.
abbrev pub library : Text → UrlLibrary
library host = record {
  parse = λ s. some (record {
    protocol = codes "rtmp:";
    username = [];
    password = [];
    search = [];
    hash = [];
    hostname = host;
    pathname = codes "/live//";
  });
  href = λ url. codes "rtmp://" ++ url.hostname ++ url.pathname;
  is_ip = λ s. 0;
  is_server_url = λ s. true;
}

slashes_off :
    normalize_restream_server_url (library (codes "Host")) [] ≡ some (codes "rtmp://host/live")
unfolding normalize_restream_server_url is_plain is_private_host
slashes_off = refl

localhost : normalize_restream_server_url (library (codes "localhost")) [] ≡ none
unfolding normalize_restream_server_url is_plain is_private_host
localhost = refl

-- The test on the host comes before the lower case.
upper_case_localhost :
    normalize_restream_server_url (library (codes "LOCALHOST")) []
    ≡ some (codes "rtmp://localhost/live")
unfolding normalize_restream_server_url is_plain is_private_host
upper_case_localhost = refl
