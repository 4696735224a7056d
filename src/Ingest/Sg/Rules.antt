-- ===== src/Ingest/Sg/Rules.antt =====
-- crates/core/src/ingest/map/sg.rs: proofs about `map_security_group_rules`.
use aws_net_hound.Base.{
  ◌≡◌, refl, sym, ap, subst, ◌∙◌, Bool, true, Option, String, List, [], ◌∷◌, ◌++◌, ◌+◌, All,
  All-append, All-map, length, length-append, ok, >>=-eq-ok, arith,
}
use aws_net_hound.Base.Traverse.{traverse-All, traverse-length, ok_unique}
use aws_net_hound.Domain.Rule.{
  Direction, ingress, egress, PortRange, RuleTarget, cidr, security_group_ref, SgRule,
}
use aws_net_hound.Domain.Valid.{IsPortRange}
use aws_net_hound.Evaluate.Candidates.Rows.{sg_rule_from_props}
use aws_net_hound.Evaluate.Candidates.RoundTrip.{sg_rule_row, sg_rule_from_props-sg_rule_row}
use aws_net_hound.Ingest.Sdk.{UserIdGroupPair, IpPermission, SecurityGroup}
use aws_net_hound.Ingest.Ports.{require_str, build_port_range}
use aws_net_hound.Ingest.Ports.Scope.{build_port_range-IsPortRange}
use aws_net_hound.Ingest.Sg.{
  cidr_rules, pair_rules, map_permission, map_permissions, map_security_group_rules,
  protocol_or_all,
}

-- Only a reference to another group is ever unresolved.
abbrev pub IsSettled : RuleTarget → Bool → Type 0
IsSettled (cidr _) resolved = resolved ≡ true
IsSettled (security_group_ref _) resolved = Unit

pub record IsMapped (direction : Direction) (rule : SgRule) : Type 0 where
  pub same : rule.direction ≡ direction
  pub ports : IsPortRange rule.port_range
  pub settled : IsSettled rule.target rule.resolved

module _ (id : String) (direction : Direction) (protocol : String) (port_range : Option PortRange)
    (valid : IsPortRange port_range) where
  cidr_rules-All :
      (field : String) (ranges : List (Option String)) {rules : List SgRule}
      → cidr_rules id field direction protocol port_range ranges ≡ ok rules
      → All (IsMapped direction) rules
  unfolding cidr_rules
  cidr_rules-All field ranges h =
      traverse-All _ (IsMapped direction)
        (λ range rule step.
          let (block, _, last) = >>=-eq-ok (require_str id field range) _ step in
          subst (IsMapped direction) (ok_unique refl last)
            (record { same = refl; ports = valid; settled = refl }))
        ranges h

  pair_rules-All :
      (account : String) (pairs : List UserIdGroupPair) {rules : List SgRule}
      → pair_rules id direction protocol port_range account pairs ≡ ok rules
      → All (IsMapped direction) rules
  unfolding pair_rules
  pair_rules-All account pairs h =
      traverse-All _ (IsMapped direction)
        (λ pair rule step.
          let (group, _, last) = >>=-eq-ok (require_str id _ pair.group_id) _ step in
          subst (IsMapped direction) (ok_unique refl last)
            (record { same = refl; ports = valid; settled = tt }))
        pairs h

map_permission-All :
    (id : String) (permission : IpPermission) (direction : Direction) (account : String)
    {rules : List SgRule}
    → map_permission id permission direction account ≡ ok rules
    → All (IsMapped direction) rules
unfolding map_permission
map_permission-All id permission direction account h =
    let protocol = protocol_or_all permission.ip_protocol in
    let (range, ports, h) =
      >>=-eq-ok (build_port_range id "port_range" protocol permission.from_port permission.to_port)
        _ h in
    let valid =
      build_port_range-IsPortRange id "port_range" protocol permission.from_port permission.to_port
        range ports in
    let (v4, h4, h) =
      >>=-eq-ok (cidr_rules id _ direction protocol range permission.ip_ranges) _ h in
    let (v6, h6, h) =
      >>=-eq-ok (cidr_rules id _ direction protocol range permission.ipv6_ranges) _ h in
    let (refs, hr, last) =
      >>=-eq-ok (pair_rules id direction protocol range account permission.user_id_group_pairs) _
        h in
    subst (All (IsMapped direction)) (ok_unique refl last) (
      All-append _ (v4 ++ v6) refs
        (All-append _ v4 v6
          (cidr_rules-All id direction protocol range valid "ip_ranges[].cidr_ip"
            permission.ip_ranges h4)
          (cidr_rules-All id direction protocol range valid "ipv6_ranges[].cidr_ipv6"
            permission.ipv6_ranges h6))
        (pair_rules-All id direction protocol range valid account permission.user_id_group_pairs
          hr))

-- A permission that maps fans out into one rule for each of its address ranges and of its references
-- to groups.
pub map_permission-length :
    (id : String) (permission : IpPermission) (direction : Direction) (account : String)
    (rules : List SgRule)
    → map_permission id permission direction account ≡ ok rules
    → length rules
      ≡ length permission.ip_ranges
        + (length permission.ipv6_ranges + length permission.user_id_group_pairs)
unfolding map_permission cidr_rules pair_rules
map_permission-length id permission direction account rules h =
    let protocol = protocol_or_all permission.ip_protocol in
    let (range, ports, h) =
      >>=-eq-ok (build_port_range id "port_range" protocol permission.from_port permission.to_port)
        _ h in
    let (v4, h4, h) =
      >>=-eq-ok (cidr_rules id _ direction protocol range permission.ip_ranges) _ h in
    let (v6, h6, h) =
      >>=-eq-ok (cidr_rules id _ direction protocol range permission.ipv6_ranges) _ h in
    let (refs, hr, last) =
      >>=-eq-ok (pair_rules id direction protocol range account permission.user_id_group_pairs) _
        h in
    let one = traverse-length _ permission.ip_ranges h4 in
    let two = traverse-length _ permission.ipv6_ranges h6 in
    let three = traverse-length _ permission.user_id_group_pairs hr in
    sym (ap length (ok_unique refl last))
    ∙ omega (arith, length-append (v4 ++ v6) refs, length-append v4 v6, one, two, three)

map_permissions-All :
    (id : String) (direction : Direction) (account : String) (permissions : List IpPermission)
    {rules : List SgRule}
    → map_permissions id direction account permissions ≡ ok rules
    → All (IsMapped direction) rules
unfolding map_permissions
map_permissions-All id direction account [] h =
    subst (All (IsMapped direction)) (ok_unique refl h) tt
map_permissions-All id direction account (permission ∷ permissions) h =
    let (first, hf, h) = >>=-eq-ok (map_permission id permission direction account) _ h in
    let (rest, hr, last) = >>=-eq-ok (map_permissions id direction account permissions) _ h in
    subst (All (IsMapped direction)) (ok_unique refl last) (
      All-append _ first rest (map_permission-All id permission direction account hf)
        (map_permissions-All id direction account permissions hr))

-- The rules of a security group that maps come as ingress rules and then egress rules; of all of them
-- the ports are in order and of sixteen bits, and only a reference to a group can be unresolved.
pub map_security_group_rules_lem :
    (sg : SecurityGroup) (account : String) (rules : List SgRule)
    → map_security_group_rules sg account ≡ ok rules
    → (ingress_rules : List SgRule) × (egress_rules : List SgRule) × (rules
        ≡ ingress_rules ++ egress_rules)
      × All (IsMapped ingress) ingress_rules
      × All (IsMapped egress) egress_rules
unfolding map_security_group_rules
map_security_group_rules_lem sg account rules h =
    let (id, _, h) =
      >>=-eq-ok (require_str "<unknown security group>" "group_id" sg.group_id) _ h in
    let (first, hf, h) = >>=-eq-ok (map_permissions id ingress account sg.ip_permissions) _ h in
    let (rest, hr, last) =
      >>=-eq-ok (map_permissions id egress account sg.ip_permissions_egress) _ h in
    (
      first,
      rest,
      sym (ok_unique refl last),
      map_permissions-All id ingress account sg.ip_permissions hf,
      map_permissions-All id egress account sg.ip_permissions_egress hr,
    )

-- Every rule of a security group that maps is, from the row that is written for it, read back as
-- itself.
pub map_security_group_rules-read_back :
    (sg : SecurityGroup) (account group : String) (rules : List SgRule)
    → map_security_group_rules sg account ≡ ok rules
    → All
        (λ rule. sg_rule_from_props (sg_rule_row group rule rule.target) rule.direction ≡ ok rule)
        rules
map_security_group_rules-read_back sg account group rules h =
    let (first, rest, eq, hf, hr) = map_security_group_rules_lem sg account rules h in
    subst (All _) (sym eq) (
      All-append _ first rest
        (All-map _ (λ rule m. sg_rule_from_props-sg_rule_row group rule m.ports) first hf)
        (All-map _ (λ rule m. sg_rule_from_props-sg_rule_row group rule m.ports) rest hr))
