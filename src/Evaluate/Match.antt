-- ===== src/Evaluate/Match.antt =====
-- crates/core/src/evaluate/mod.rs: when one rule's protocol, ports and CIDR block fit the traffic.
pub mod Cidr
use Prim.Native.Nat.{bit_and}
use aws_net_hound.Base.{
  ℕ, ◌-◌, ◌*◌, ◌%◌, ◌^◌, Bool, true, false, ◌&&◌, ◌||◌, Option, none, some, String, str_eq, ltb,
  leb, ◌==◌, if◌then◌else◌,
}
use aws_net_hound.Net.{IpAddr, v4, v6, codes, parse_ip_addr, parse_u32, split_once}
use aws_net_hound.Domain.Rule.{PortRange}
use aws_net_hound.Evaluate.Types.{Protocol, tcp, udp, icmp}

abbrev pub is_tcp : Protocol → Bool
is_tcp tcp = true
is_tcp _ = false

abbrev pub is_udp : Protocol → Bool
is_udp udp = true
is_udp _ = false

abbrev pub is_icmp : Protocol → Bool
is_icmp (icmp _ _) = true
is_icmp _ = false

unfoldable pub rule_protocol_matches : String → Protocol → Bool
rule_protocol_matches rule_protocol traffic_protocol =
    if str_eq rule_protocol "-1"
    then true
    else if str_eq rule_protocol "tcp"
    then is_tcp traffic_protocol
    else if str_eq rule_protocol "udp"
    then is_udp traffic_protocol
    else if str_eq rule_protocol "icmp" || str_eq rule_protocol "icmpv6"
    then is_icmp traffic_protocol
    else false

unfoldable pub port_matches : Option PortRange → Option ℕ → Bool
port_matches none _ = true
port_matches (some range) (some port) = leb range.from_port port && leb port range.to_port
port_matches (some range) none = false

-- `MAX << k` on a word of `width` bits.
abbrev pub max_shl : ℕ → ℕ → ℕ
max_shl width k = (2 ^ width - 1) * 2 ^ k % 2 ^ width

-- The mask of a prefix: no shift by the full width, which Rust does not allow.
abbrev pub prefix_mask : ℕ → ℕ → ℕ
prefix_mask width prefix_len = if prefix_len == 0 then 0 else max_shl width (width - prefix_len)

-- One arm of the `match` in `cidr_contains`; `width` is 32 or 128.
unfoldable pub masked_eq : ℕ → ℕ → ℕ → ℕ → Option Bool
masked_eq width prefix_len network address =
    if ltb width prefix_len
    then none
    else some (
        bit_and network (prefix_mask width prefix_len)
        == bit_and address (prefix_mask width prefix_len))

unfoldable pub network_contains : IpAddr → ℕ → IpAddr → Option Bool
network_contains (v4 network) prefix_len (v4 address) = masked_eq 32 prefix_len network address
network_contains (v6 network) prefix_len (v6 address) = masked_eq 128 prefix_len network address
network_contains _ prefix_len _ = some false

-- The parsed halves of `ip/prefix_len`.
unfoldable pub parse_cidr : String → Option (IpAddr × ℕ)
parse_cidr text = elim (split_once b'/' (codes text)) [
  | none ↦ none
  | some (network_str, prefix_str) ↦ elim (parse_ip_addr network_str) [
    | none ↦ none
    | some network ↦ elim (parse_u32 prefix_str) [
      | none ↦ none
      | some prefix_len ↦ some (network, prefix_len)
    ]
  ]
]

unfoldable pub cidr_contains : String → IpAddr → Option Bool
cidr_contains text address = elim (parse_cidr text) [
  | none ↦ none
  | some (network, prefix_len) ↦ network_contains network prefix_len address
]

-- `matches!(cidr_contains(..), Some(true))`.
abbrev pub is_some_true : Option Bool → Bool
is_some_true (some true) = true
is_some_true _ = false
