-- ===== src/Socks/Remap.antt =====
-- `AddressRemapper`. The system's resolver, `socket.getaddrinfo`, is a parameter.
pub mod Dns
use drivers_evergreen_tools.Common.{
  ℕ, zero, suc, ◌+◌, ◌≡◌, ◌↔◌, ap, Bool, true, false, not, ◌&&◌, ◌||◌, List, [], ◌∷◌, ◌++◌, map,
  Option, none, some, arith, ◌==◌, if◌then◌else◌, any, length,
}
use drivers_evergreen_tools.Common.Text.{Text, codes, text_eq, text_eq_iff}
use drivers_evergreen_tools.Common.Text.Decimal.{is_digit, value}
use drivers_evergreen_tools.Common.Text.Regex.{expect, expect_all, at_end, runs, first_match, ◌>>?◌}
use drivers_evergreen_tools.Common.Text.Utf8.{encode}

-- A host is `bytes` where it comes from a mapping or a domain request, and `str` where it comes from
-- the resolver or an address request. Python never takes one for the other.
pub data Host : Type 0 where
  raw : List ℕ → Host
  str : Text → Host

pub record HostPort : Type 0 where
  pub host : Host
  pub port : ℕ

pub record Mapping : Type 0 where
  pub src : HostPort
  pub dst : HostPort

unfoldable pub host_eq : Host → Host → Bool
host_eq (raw a) (raw b) = text_eq a b
host_eq (raw a) (str b) = false
host_eq (str a) (raw b) = false
host_eq (str a) (str b) = text_eq a b

unfoldable pub same : HostPort → HostPort → Bool
unfolding host_eq
same a b = host_eq a.host b.host && a.port == b.port

-- The bracketed class `[^[\]]`, and the plain one `[^\[]`.
abbrev in_brackets : ℕ → Bool
in_brackets c = not (c == b'[') && not (c == b']')

abbrev in_plain : ℕ → Bool
in_plain c = not (c == b'[')

-- `host_re`: the host, bracketed or plain, and the pattern that follows.
match_host : {B : Type 0} → Text → (Text → Text → Option B) → Option B
match_host s k =
    let bracketed = expect b'[' s >>? λ inner.
    first_match (runs in_brackets inner) λ host rest. expect b']' rest >>? λ more. k host more in
    elim bracketed [ none ↦ first_match (runs in_plain s) k | some b ↦ some b ]

-- `":" + port_re`
match_port : {B : Type 0} → Text → (ℕ → Text → Option B) → Option B
match_port s k =
    expect b':' s >>? λ digits. first_match (runs is_digit digits) λ run rest. k (value 0 run) rest

abbrev mapping : Text → ℕ → Text → ℕ → Mapping
mapping src_host src_port dst_host dst_port = record {
  src = record { host = raw (encode src_host); port = src_port };
  dst = record { host = raw (encode dst_host); port = dst_port };
}

-- `parse_single_mapping`; none where it raises.
unfoldable pub parse_single_mapping : Text → Option Mapping
unfolding match_host match_port expect expect_all runs first_match at_end encode
parse_single_mapping string = match_host string λ src_host s₁. match_port s₁ λ src_port s₂.
    expect_all (codes " to ") s₂ >>? λ s₃. match_host s₃ λ dst_host s₄.
      match_port s₄ λ dst_port s₅.
        if at_end s₅ then some (mapping src_host src_port dst_host dst_port) else none

-- The list comprehension of `__init__`.
unfoldable pub parse_mappings : List Text → Option (List Mapping)
unfolding parse_single_mapping
parse_mappings [] = some []
parse_mappings (string ∷ strings) =
    parse_single_mapping string >>? λ m. parse_mappings strings >>? λ ms. some (m ∷ ms)

pub data Family : Type 0 where
  inet inet6 other : Family

-- One result of `getaddrinfo`, with the first two fields of its `sa`.
pub record Address : Type 0 where
  pub family : Family
  pub host : Text
  pub port : ℕ

-- `socket.getaddrinfo(host, port, AF_UNSPEC, SOCK_STREAM)`; none for `gaierror`.
abbrev pub Resolver : Type 0
Resolver = Host → ℕ → Option (List Address)

abbrev pub source_of : Address → HostPort
source_of a = record { host = str a.host; port = a.port }

-- `sa in existing_src_entries`
abbrev pub is_source : HostPort → List Mapping → Bool
is_source hp = any (λ (m : Mapping). same hp m.src)

abbrev is_inet : Family → Bool
is_inet inet = true
is_inet inet6 = true
is_inet other = false

-- The inner loop of `add_dns_remappings`: what it appends. `existing` was read before the loop.
unfoldable pub new_entries : List Mapping → HostPort → List Address → List Mapping
new_entries existing dst [] = []
new_entries existing dst (a ∷ addrs) =
    let more = new_entries existing dst addrs in
    if is_inet a.family && not (is_source (source_of a) existing)
    then record { src = source_of a; dst = dst } ∷ more
    else more

-- The outer loop runs over a list that grows: `pending` is the part that it has not reached yet.
unfoldable pub dns_loop : Resolver → ℕ → List Mapping → List Mapping → Option (List Mapping)
dns_loop resolve f mappings [] = some mappings
dns_loop resolve zero mappings (m ∷ pending) = none
dns_loop resolve (suc f) mappings (m ∷ pending) = elim (resolve m.src.host m.src.port) [
  | none ↦ dns_loop resolve f mappings pending
  | some addrs ↦
      let more = new_entries mappings m.dst addrs in
      dns_loop resolve f (mappings ++ more) (pending ++ more)
]

abbrev answers : Option (List Address) → ℕ
answers none = 0
answers (some addrs) = length addrs

-- Rounds that a mapping can cause: its own, and one for each entry that it appends.
abbrev weight : Resolver → Mapping → ℕ
weight resolve m = elim m.src.host [
  | raw host ↦ 1 + answers (resolve (raw host) m.src.port)
  | str host ↦ 1
]

unfoldable pub total_weight : Resolver → List Mapping → ℕ
total_weight resolve [] = 0
total_weight resolve (m ∷ ms) = weight resolve m + total_weight resolve ms

-- `add_dns_remappings`; none where the fuel runs out.
unfoldable pub add_dns_remappings : Resolver → List Mapping → Option (List Mapping)
unfolding dns_loop new_entries same total_weight
add_dns_remappings resolve mappings =
    dns_loop resolve (total_weight resolve mappings) mappings mappings

-- `remap`: the first mapping from the address, or the address itself.
unfoldable pub remap : List Mapping → HostPort → HostPort
unfolding same
remap [] hp = hp
remap (m ∷ ms) hp = if same hp m.src then m.dst else remap ms hp
