-- ===== src/Restream/Target.antt =====
-- The server URL of a destination (apps/web/src/server/restream/target.ts). The URL parser with its
-- serializer, `isIP` and the schema of the result are parameters.
pub mod Tests
use streambrew.Base.{
  starts_with, ℕ, ◌+◌, ◌-◌, ◌*◌, Bool, true, false, not, ◌&&◌, ◌||◌, List, [], ◌∷◌, ◌++◌, map, Text,
  codes, text_eq, Option, none, some, leb, ◌==◌, if◌then◌else◌,
}
use streambrew.Timing.Parse.{trim_start, trim_end}

pub record ParsedUrl : Type 0 where
  pub protocol : Text
  pub username : Text
  pub password : Text
  pub search : Text
  pub hash : Text
  pub hostname : Text
  pub pathname : Text

pub record UrlLibrary : Type 0 where
  pub parse : Text → Option ParsedUrl
  pub href : ParsedUrl → Text
  pub is_ip : Text → ℕ
  pub is_server_url : Text → Bool

-- hostname.split(".").map(Number), of an address that isIP takes for IPv4.
abbrev pub octets : ℕ → Text → List ℕ
octets acc [] = acc ∷ []
octets acc (c ∷ s) = if c == b'.' then acc ∷ octets 0 s else octets (acc * 10 + (c - b'0')) s

-- The tests on the first octet and the second, where there is none the number -1.
abbrev pub is_private_pair : ℕ → Option ℕ → Bool
is_private_pair first none = first == 0 || (first == 10 || (first == 127 || leb 224 first))
is_private_pair first (some second) =
    first == 0
    || (first == 10
        || (first == 127
            || ((first == 169 && second == 254)
                || ((first == 172 && (leb 16 second && leb second 31))
                    || ((first == 192 && second == 168) || leb 224 first)))))

abbrev pub is_private_octets : List ℕ → Bool
is_private_octets [] = false
is_private_octets (a ∷ []) = is_private_pair a none
is_private_octets (a ∷ b ∷ rest) = is_private_pair a (some b)

unfoldable pub is_private_ipv4 : Text → Bool
is_private_ipv4 hostname = is_private_octets (octets 0 hostname)

-- A host of this kind of URL is ASCII.
abbrev pub lower : ℕ → ℕ
lower c = if leb b'A' c && leb c b'Z' then c + 32 else c

abbrev pub to_lower_case : Text → Text
to_lower_case s = map lower s

-- /^fe[89ab]/
abbrev pub is_link_local : Text → Bool
is_link_local (a ∷ b ∷ c ∷ s) =
    a == b'f' && (b == b'e' && (c == b'8' || (c == b'9' || (c == b'a' || c == b'b'))))
is_link_local _ = false

abbrev pub is_private_normalized : Text → Bool
is_private_normalized s =
    text_eq s (codes "::")
    || (text_eq s (codes "::1")
        || (starts_with s (codes "fc") || (starts_with s (codes "fd") || is_link_local s)))

unfoldable pub is_private_ipv6 : Text → Bool
is_private_ipv6 hostname = is_private_normalized (to_lower_case hostname)

-- url.hostname.replace(/^\[(.*)\]$/, "$1")
abbrev pub before_bracket : Text → Option Text
before_bracket [] = none
before_bracket (c ∷ []) = if c == b']' then some [] else none
before_bracket (c ∷ d ∷ s) = elim (before_bracket (d ∷ s)) [
  | some inner ↦ some (c ∷ inner)
  | none ↦ none
]

abbrev pub unbracketed : Text → Text
unbracketed [] = []
unbracketed (c ∷ s) =
    if c == b'[' then elim (before_bracket s) [ some inner ↦ inner | none ↦ c ∷ s ] else c ∷ s

-- .replace(/\/+$/, "")
abbrev pub without_slashes : Text → Text
without_slashes [] = []
without_slashes (c ∷ s) = elim (without_slashes s) [
  | [] ↦ if c == b'/' then [] else c ∷ []
  | d ∷ r ↦ c ∷ d ∷ r
]

-- .replace(/\/$/, "")
abbrev pub without_slash : Text → Text
without_slash [] = []
without_slash (c ∷ []) = if c == b'/' then [] else c ∷ []
without_slash (c ∷ d ∷ s) = c ∷ without_slash (d ∷ s)

abbrev pub or_slash : Text → Text
or_slash [] = b'/' ∷ []
or_slash (c ∷ s) = c ∷ s

abbrev pub is_empty : Text → Bool
is_empty [] = true
is_empty (c ∷ s) = false

unfoldable pub is_plain : ParsedUrl → Bool
is_plain url =
    (text_eq url.protocol (codes "rtmp:") || text_eq url.protocol (codes "rtmps:"))
    && (is_empty url.username
        && (is_empty url.password
            && (is_empty url.search
                && (is_empty url.hash
                    && (not (is_empty url.hostname)
                        && not (text_eq url.hostname (codes "localhost")))))))

unfoldable pub is_private_host : (Text → ℕ) → Text → Bool
is_private_host is_ip hostname =
    (is_ip hostname == 4 && is_private_ipv4 hostname)
    || (is_ip hostname == 6 && is_private_ipv6 hostname)

abbrev pub parsed_by_schema : (Text → Bool) → Text → Option Text
parsed_by_schema is_server_url href = if is_server_url href then some href else none

-- None is an InvalidRestreamTargetError.
abbrev pub normalized : UrlLibrary → Option ParsedUrl → Option Text
normalized library none = none
normalized library (some url) =
    if is_plain url && not (is_private_host library.is_ip (unbracketed url.hostname))
    then parsed_by_schema library.is_server_url (
        without_slash (
          library.href (record url {
            hostname = to_lower_case url.hostname;
            pathname = or_slash (without_slashes url.pathname);
          })))
    else none

unfoldable pub normalize_restream_server_url : UrlLibrary → Text → Option Text
normalize_restream_server_url library input =
    normalized library (library.parse (trim_end (trim_start input)))
