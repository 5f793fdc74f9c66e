-- ===== src/Socks/Tests.antt =====
-- Sessions with the proxy, and the theorems at that data.
use drivers_evergreen_tools.Common.{
  ℕ, ◌≡◌, refl, true, false, none, some, some-injective, List, [], ◌∷◌, ◌++◌, ok, arith,
  if◌then◌else◌,
}
use drivers_evergreen_tools.Common.Exec.{◌>>=◌}
use drivers_evergreen_tools.Common.Text.{Text, codes, text_eq}
use drivers_evergreen_tools.Common.Text.Utf8.{decode}
use drivers_evergreen_tools.Socks.Stream.{Stream, closed, read_exact, read_counted, recv}
use drivers_evergreen_tools.Socks.Remap.{
  raw, str, HostPort, Mapping, Address, inet, inet6, other, Resolver, parse_single_mapping,
  parse_mappings, add_dns_remappings, remap, is_source, host_eq,
}
use drivers_evergreen_tools.Socks.Remap.Dns.{IsNumeric, remap-add_dns_remappings}
use drivers_evergreen_tools.Socks.Connect.{
  Socket, Attempt, accepted, refused, no_socket, create_outgoing,
}
use drivers_evergreen_tools.Socks.Handler.{
  Session, Network, handle, connect, ipv6_text, greet, check_credentials, read_request, recv_one,
  read_bytes, read_number, send, require, present, decoded, choose_method, compare_parts, read_host,
  port_of, success_reply,
}
use drivers_evergreen_tools.Socks.Handler.Segments.{Blind, handle-Blind}
use drivers_evergreen_tools.Socks.Handler.Auth.{Greeting, Credentials, handle-Credentials}
use drivers_evergreen_tools.Socks.Handler.Reply.{connect_refused, remap-ipv6}
use drivers_evergreen_tools.Socks.Relay.{
  Proxy, Round, ready, chunk, a, b, running, returned as ended, raw_proxy, relayed, timeline,
  raw_proxy-relayed,
}

abbrev split_stream : Stream
split_stream = record { segments = (1 ∷ []) ∷ [] ∷ (2 ∷ 3 ∷ []) ∷ (4 ∷ []) ∷ []; ending = closed }

read_three : (read_exact 3 split_stream).0 ≡ some (1 ∷ 2 ∷ 3 ∷ [])
unfolding read_exact recv
read_three = refl

abbrev named : Text → ℕ → HostPort
named host port = record { host = raw host; port = port }

abbrev to_27017 : HostPort
to_27017 = named (codes "localhost") 27017

abbrev mappings : List Mapping
mappings = record { src = named (codes "localhost") 12345; dst = to_27017 } ∷ []

parse_mapping : parse_mappings (codes "localhost:12345 to localhost:27017" ∷ []) ≡ some mappings
unfolding parse_mappings
parse_mapping = refl

parse_bracketed :
    parse_single_mapping (codes "[::1]:1 to db.test:2")
    ≡ some (record { src = named (codes "::1") 1; dst = named (codes "db.test") 2 })
unfolding parse_single_mapping
parse_bracketed = refl

parse_portless : parse_single_mapping (codes "localhost to localhost:1") ≡ none
unfolding parse_single_mapping
parse_portless = refl

abbrev address : Text → ℕ → Address
address host port = record { family = inet; host = host; port = port }

abbrev local_names : Resolver
local_names (raw h) p =
    if text_eq h (codes "localhost")
    then some (
        address (codes "127.0.0.1") p
        ∷ record { family = inet6; host = codes "::1"; port = p }
        ∷ [])
    else none
local_names (str t) p = some (address t p ∷ [])

local_names-IsNumeric : IsNumeric local_names
local_names-IsNumeric = record {
  at = λ h p addrs e. rw (← some-injective (address h p ∷ []) addrs e) ((refl, refl), tt);
}

abbrev extended : List Mapping
extended =
    record { src = named (codes "localhost") 12345; dst = to_27017 }
    ∷ record { src = record { host = str (codes "127.0.0.1"); port = 12345 }; dst = to_27017 }
    ∷ record { src = record { host = str (codes "::1"); port = 12345 }; dst = to_27017 }
    ∷ []

extended-mappings : add_dns_remappings local_names mappings ≡ some extended
unfolding add_dns_remappings text_eq host_eq
extended-mappings = refl

localhost_is_source : is_source (named (codes "localhost") 12345) mappings ≡ true
unfolding add_dns_remappings text_eq host_eq
localhost_is_source = refl

remap-add_dns_remappings_example :
    remap extended (named (codes "localhost") 12345)
    ≡ remap mappings (named (codes "localhost") 12345)
remap-add_dns_remappings_example =
    remap-add_dns_remappings local_names mappings extended (named (codes "localhost") 12345)
      extended-mappings localhost_is_source

-- Nothing listens on the IPv4 address.
abbrev attempts : Address → Attempt
attempts address = elim address.family [ inet ↦ refused | inet6 ↦ accepted | other ↦ no_socket ]

abbrev network : Network
network = record { resolve = local_names; attempt = attempts }

abbrev local_addresses : List Address
local_addresses =
    address (codes "127.0.0.1") 27017
    ∷ record { family = inet6; host = codes "::1"; port = 27017 }
    ∷ []

-- Greeting with both methods, credentials bob:pw, and a request for localhost:12345.
abbrev hello : List ℕ
hello =
    (5 ∷ 2 ∷ 0 ∷ 2 ∷ [])
    ++ (1 ∷ 3 ∷ codes "bob")
    ++ (2 ∷ codes "pw")
    ++ (5 ∷ 1 ∷ 0 ∷ 3 ∷ 9 ∷ codes "localhost")
    ++ (48 ∷ 57 ∷ [])

abbrev client : List (List ℕ) → Session
client segments = record { input = record { segments = segments; ending = closed }; sent = [] }

abbrev open_socket : Socket
open_socket = record {
  peer = record { family = inet6; host = codes "::1"; port = 27017 };
  is_open = true;
}

abbrev after_hello : Session
after_hello = record {
  input = record { segments = [] ∷ []; ending = closed };
  sent = (5 ∷ 2 ∷ []) ++ (1 ∷ 0 ∷ []) ++ success_reply;
}

hello_connects :
    handle network (some (codes "bob:pw")) extended (client (hello ∷ []))
    ≡ (ok open_socket, after_hello)
unfolding handle greet check_credentials compare_parts read_request recv_one read_bytes read_number
    send require present decoded choose_method read_host port_of connect create_outgoing remap
    text_eq host_eq decode recv read_exact ◌>>=◌ read_counted
hello_connects = refl

handle-Credentials_example :
    (middle : List ℕ) × (after : List ℕ) × Greeting 2 hello middle
    × Credentials (codes "bob:pw") middle after
handle-Credentials_example =
    handle-Credentials network (codes "bob:pw") extended (client (hello ∷ [])) after_hello
      open_socket hello_connects

handle-Blind_example : Blind (handle network (some (codes "bob:pw")) extended)
handle-Blind_example = handle-Blind network (some (codes "bob:pw")) extended

abbrev ipv4_only : HostPort
ipv4_only = record { host = str (codes "127.0.0.1"); port = 27017 }

connect_refused_example : connect network ipv4_only (client []) ≡ (
  ok (record { peer = address (codes "127.0.0.1") 27017; is_open = false }),
  record (client []) { sent = success_reply },
)
connect_refused_example =
    connect_refused network ipv4_only (address (codes "127.0.0.1") 27017 ∷ [])
      (address (codes "127.0.0.1") 27017) (client []) refl refl refl

abbrev loopback : List ℕ
loopback = 0 ∷ 0 ∷ 0 ∷ 0 ∷ 0 ∷ 0 ∷ 0 ∷ 0 ∷ 0 ∷ 0 ∷ 0 ∷ 0 ∷ 0 ∷ 0 ∷ 0 ∷ 1 ∷ []

ipv6_text-loopback : ipv6_text loopback ≡ codes "0000:0000:0000:0000:0000:0000:0000:0001"
unfolding ipv6_text
ipv6_text-loopback = refl

remap-ipv6_example :
    remap extended (record { host = str (ipv6_text loopback); port = 12345 })
    ≡ record { host = str (ipv6_text loopback); port = 12345 }
remap-ipv6_example = remap-ipv6 loopback 12345 extended refl (omega arith)

abbrev idle : Proxy
idle = record { to_a = []; to_b = []; phase = running }

abbrev rounds : List Round
rounds =
    ready (chunk a (1 ∷ 2 ∷ []) ∷ chunk b (9 ∷ []) ∷ [])
    ∷ ready (chunk a (3 ∷ []) ∷ chunk b [] ∷ chunk a (4 ∷ []) ∷ [])
    ∷ []

raw_proxy_run :
    raw_proxy rounds idle ≡ record { to_a = 9 ∷ []; to_b = 1 ∷ 2 ∷ 3 ∷ []; phase = ended }
unfolding raw_proxy
raw_proxy_run = refl

raw_proxy-relayed_example : raw_proxy rounds idle ≡ relayed (timeline rounds) idle
raw_proxy-relayed_example = raw_proxy-relayed rounds idle refl
