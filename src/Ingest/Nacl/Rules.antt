-- ===== src/Ingest/Nacl/Rules.antt =====
-- crates/core/src/ingest/map/nacl.rs: proofs about `map_network_acl_rules`.
use aws_net_hound.Base.{
  ℕ, ◌≡◌, ◌<◌, refl, sym, ap, subst, String, List, All, All-map, ok, >>=-eq-ok, ok_or, arith,
  traverse, length, ◌∙◌,
}
use aws_net_hound.Base.Int.{ℤ, pos, negsuc, to_u16}
use aws_net_hound.Base.Traverse.{traverse-All, traverse-length, ok_unique}
use aws_net_hound.Base.Sort.{IsSortedBy}
use aws_net_hound.Base.Sort.Order.{sort_by_key-All, sort_by_key-IsSortedBy, sort_by_key-length}
use aws_net_hound.Domain.Rule.{NaclRule}
use aws_net_hound.Domain.Valid.{IsNaclRule}
use aws_net_hound.Evaluate.Candidates.Rows.{nacl_rule_from_props}
use aws_net_hound.Evaluate.Candidates.RoundTrip.{nacl_rule_from_props-nacl_rule_row}
use aws_net_hound.Graph.Rows.{nacl_rule_row}
use aws_net_hound.Ingest.Sdk.{NetworkAcl, NetworkAclEntry}
use aws_net_hound.Ingest.Ports.{
  require_str, build_port_range, invalid_field, absent, rule_number_exceeds_u16,
}
use aws_net_hound.Ingest.Ports.Scope.{build_port_range-IsPortRange}
use aws_net_hound.Ingest.Sg.{protocol_or_all}
use aws_net_hound.Ingest.Nacl.{
  map_entry, map_network_acl_rules, from_of, to_of, or_else, direction_of, action_of,
}

number_small : {E : Type 0} (e : E) (value : ℤ) (n : ℕ) → ok_or e (to_u16 value) ≡ ok n → n < 65536
number_small e (pos m) n h = ground arith
number_small e (negsuc m) n h = ground arith

map_entry-IsNaclRule :
    (id : String) (entry : NetworkAclEntry) (rule : NaclRule)
    → map_entry id entry ≡ ok rule
    → IsNaclRule rule
unfolding map_entry
map_entry-IsNaclRule id entry rule h =
    let (value, _, h) =
      >>=-eq-ok (ok_or (invalid_field id "rule_number" absent) entry.rule_number) _ h in
    let too_big = invalid_field id "rule_number" (rule_number_exceeds_u16 value) in
    let (number, small, h) = >>=-eq-ok (ok_or too_big (to_u16 value)) _ h in
    let protocol = protocol_or_all entry.protocol in
    let (range, ports, h) =
      >>=-eq-ok
        (build_port_range id "port_range" protocol (from_of entry.port_range)
          (to_of entry.port_range))
        _ h in
    let (block, _, h) =
      >>=-eq-ok
        (ok_or (invalid_field id "cidr_block" absent)
          (or_else entry.cidr_block entry.ipv6_cidr_block))
        _ h in
    let (direction, _, h) = >>=-eq-ok (direction_of id entry.egress) _ h in
    let (action, _, last) = >>=-eq-ok (action_of id entry.rule_action) _ h in
    subst IsNaclRule (ok_unique refl last) (
      number_small too_big value number small,
      build_port_range-IsPortRange id "port_range" protocol (from_of entry.port_range)
          (to_of entry.port_range) range ports,
    )

-- The rules of a network ACL that maps are one for each entry in the order of their numbers, which
-- are of sixteen bits as the ports are.
pub map_network_acl_rules_lem :
    (acl : NetworkAcl) (rules : List NaclRule)
    → map_network_acl_rules acl ≡ ok rules
    → IsSortedBy (λ (rule : NaclRule). rule.rule_number) rules
      × All IsNaclRule rules
      × (length rules ≡ length acl.entries)
unfolding map_network_acl_rules
map_network_acl_rules_lem acl rules h =
    let key = λ (rule : NaclRule). rule.rule_number in
    let (id, _, h) =
      >>=-eq-ok (require_str "<unknown network acl>" "network_acl_id" acl.network_acl_id) _ h in
    let (mapped, each, last) = >>=-eq-ok (traverse (map_entry id) acl.entries) _ h in
    let eq = ok_unique refl last in
    (
      subst (IsSortedBy key) eq (sort_by_key-IsSortedBy key mapped),
      subst (All IsNaclRule) eq (
          sort_by_key-All key IsNaclRule mapped
            (traverse-All (map_entry id) IsNaclRule (map_entry-IsNaclRule id) acl.entries each)),
      ap length (sym eq)
          ∙ sort_by_key-length key mapped
          ∙ traverse-length (map_entry id) acl.entries each,
    )

-- Every rule of a network ACL that maps is, from the row that is written for it, read back as itself.
pub map_network_acl_rules-read_back :
    (acl : NetworkAcl) (network_acl_id : String) (rules : List NaclRule)
    → map_network_acl_rules acl ≡ ok rules
    → All (λ rule. nacl_rule_from_props (nacl_rule_row network_acl_id rule) ≡ ok rule) rules
map_network_acl_rules-read_back acl network_acl_id rules h =
    All-map _ (nacl_rule_from_props-nacl_rule_row network_acl_id) rules
      (map_network_acl_rules_lem acl rules h).1
