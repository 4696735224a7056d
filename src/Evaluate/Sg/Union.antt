-- ===== src/Evaluate/Sg/Union.antt =====
-- crates/core/src/evaluate/sg.rs: proofs about what `evaluate` answers.
use mathlib.Core.List.{foldl, foldr}
use aws_net_hound.Base.{
  ℕ, suc, ◌≡◌, refl, sym, ap, ap₂, ◌∙◌, ◌⊎◌, inl, inr, Bool, true, false, ◌&&◌, ◌||◌, not, Option,
  none, some, List, [], ◌∷◌, map, String, str_eq, filter, any, enumerate_from, All, if◌then◌else◌,
  Bool-cases, Option-cases, arith,
}
use aws_net_hound.Base.First.{first_from, IsFirstAt, first-cases}
use aws_net_hound.Domain.Rule.{
  Direction, SgRule, RuleTarget, cidr, security_group_ref, same_direction,
}
use aws_net_hound.Evaluate.Types.{
  Traffic, RuleRef, security_group, Verdict, no_matching_rule, unresolved_reference,
}
use aws_net_hound.Evaluate.Match.{rule_protocol_matches, port_matches, cidr_contains, is_some_true}
use aws_net_hound.Evaluate.Sg.{
  PeerIdentity, Outcome, allowed, indeterminate, denied, combine, classify_target, classify_rule,
  verdict_of_outcome, evaluate,
}

-- Direction, protocol and ports fit; a rule for all protocols has no ports to fit.
abbrev pub fits : Direction → Traffic → SgRule → Bool
fits direction traffic rule =
    same_direction rule.direction direction
    && rule_protocol_matches rule.protocol traffic.protocol
    && (str_eq rule.protocol "-1" || port_matches rule.port_range traffic.port)

abbrev pub target_permits : Traffic → PeerIdentity → RuleTarget → Bool → Bool
target_permits traffic peer (cidr block) resolved =
    is_some_true (cidr_contains block traffic.peer_address)
target_permits traffic peer (security_group_ref id) resolved =
    resolved && any (λ member. str_eq member id) peer.security_group_ids

-- The rule lets the traffic through.
abbrev pub permits : Direction → Traffic → PeerIdentity → SgRule → Bool
permits direction traffic peer rule =
    fits direction traffic rule && target_permits traffic peer rule.target rule.resolved

abbrev pub is_reference : RuleTarget → Bool
is_reference (cidr block) = false
is_reference (security_group_ref id) = true

-- The rule might let the traffic through, but the group that it names is not known.
abbrev pub undecided : Direction → Traffic → SgRule → Bool
undecided direction traffic rule =
    fits direction traffic rule && is_reference rule.target && not rule.resolved

abbrev pub referenced : RuleTarget → String
referenced (cidr block) = block
referenced (security_group_ref id) = id

-- Which outcome a rule has, by the two tests.
abbrev grade : Bool → Bool → RuleRef → String → Outcome
grade true _ this group = allowed this
grade false true this group = indeterminate group
grade false false this group = denied

combine_assoc : (a b c : Outcome) → combine (combine a b) c ≡ combine a (combine b c)
unfolding combine
combine_assoc (allowed r) b c = refl
combine_assoc (indeterminate g) (allowed r) c = refl
combine_assoc (indeterminate g) (indeterminate h) (allowed r) = refl
combine_assoc (indeterminate g) (indeterminate h) (indeterminate k) = refl
combine_assoc (indeterminate g) (indeterminate h) denied = refl
combine_assoc (indeterminate g) denied (allowed r) = refl
combine_assoc (indeterminate g) denied (indeterminate k) = refl
combine_assoc (indeterminate g) denied denied = refl
combine_assoc denied (allowed r) c = refl
combine_assoc denied (indeterminate h) (allowed r) = refl
combine_assoc denied (indeterminate h) (indeterminate k) = refl
combine_assoc denied (indeterminate h) denied = refl
combine_assoc denied denied (allowed r) = refl
combine_assoc denied denied (indeterminate k) = refl
combine_assoc denied denied denied = refl

combine-denied : (a : Outcome) → combine a denied ≡ a
unfolding combine
combine-denied (allowed r) = refl
combine-denied (indeterminate g) = refl
combine-denied denied = refl

denied-combine : (a : Outcome) → combine denied a ≡ a
unfolding combine
denied-combine (allowed r) = refl
denied-combine (indeterminate g) = refl
denied-combine denied = refl

-- The fold from the left, as the code has it, against the fold from the right.
foldl-combine :
    (a : Outcome) (os : List Outcome) → foldl combine a os ≡ combine a (foldr combine denied os)
foldl-combine a [] = sym (combine-denied a)
foldl-combine a (o ∷ os) =
    foldl-combine (combine a o) os ∙ combine_assoc a o (foldr combine denied os)

-- The outcome of two searches: for a rule that permits, and for an undecided one.
abbrev settle : String → Option (ℕ × SgRule) → Option (ℕ × SgRule) → Outcome
settle id (some (i, _)) _ = allowed (security_group id i)
settle id none (some (_, rule)) = indeterminate (referenced rule.target)
settle id none none = denied

-- One more rule in front.
combine-settle :
    (id : String) (i : ℕ) (rule : SgRule) (p u : Bool) (permitting unknown : Option (ℕ × SgRule))
    → combine
        (grade p u (security_group id i) (referenced rule.target))
        (settle id permitting unknown)
      ≡ settle id (if p then some (i, rule) else permitting) (if u then some (i, rule) else unknown)
unfolding combine
combine-settle id i rule true u permitting unknown = refl
combine-settle id i rule false true (some s) unknown = refl
combine-settle id i rule false true none (some s) = refl
combine-settle id i rule false true none none = refl
combine-settle id i rule false false (some s) unknown = refl
combine-settle id i rule false false none (some s) = refl
combine-settle id i rule false false none none = refl

module _ (id : String) (direction : Direction) (traffic : Traffic) (peer : PeerIdentity) where
  -- What the whole rule set comes to, without a fold: two searches, one after the other.
  abbrev union_from : ℕ → List SgRule → Outcome
  union_from i rules =
      settle id (first_from (permits direction traffic peer) i rules)
        (first_from (undecided direction traffic) i rules)

  outcomes_from : ℕ → List SgRule → List Outcome
  outcomes_from i rules =
      map (λ (index, rule). classify_rule rule index id traffic peer)
        (filter (λ (_, rule). same_direction rule.direction direction) (enumerate_from i rules))

  classify_target_lem :
      (target : RuleTarget) (resolved : Bool) (this : RuleRef)
      → classify_target target resolved this traffic peer
        ≡ grade
            (target_permits traffic peer target resolved)
            (is_reference target && not resolved)
            this
            (referenced target)
  unfolding classify_target
  classify_target_lem (cidr block) resolved this =
      elim (Option-cases (cidr_contains block traffic.peer_address)) [
        | inl e ↦ rw (e, classify_target)
        | inr (b, e) ↦ elim (Bool-cases b) [
          | inl t ↦ rw (e, classify_target, t)
          | inr f ↦ rw (e, classify_target, f)
        ]
      ]
  classify_target_lem (security_group_ref ref_id) true this = ground arith
  classify_target_lem (security_group_ref ref_id) false this = refl

  classify_lem :
      (i : ℕ) (rule : SgRule)
      → same_direction rule.direction direction ≡ true
      → classify_rule rule i id traffic peer
        ≡ grade
            (permits direction traffic peer rule)
            (undecided direction traffic rule)
            (security_group id i)
            (referenced rule.target)
  unfolding classify_rule
  classify_lem i rule same =
      ground (arith, classify_target_lem rule.target rule.resolved (security_group id i))

  fold-union_from :
      (i : ℕ) (rules : List SgRule)
      → foldr combine denied (outcomes_from i rules) ≡ union_from i rules
  unfolding outcomes_from
  fold-union_from i [] = refl
  fold-union_from i (rule ∷ rules) = elim (Bool-cases (same_direction rule.direction direction)) [
    | inr other ↦ rw other (fold-union_from (suc i) rules)
    | inl same ↦
        let shape : outcomes_from i (rule ∷ rules)
            ≡ classify_rule rule i id traffic peer ∷ outcomes_from (suc i) rules =
          rw same in
        ap (foldr combine denied) shape
        ∙ ap₂ combine (classify_lem i rule same) (fold-union_from (suc i) rules)
        ∙ combine-settle id i rule (permits direction traffic peer rule)
            (undecided direction traffic rule) _ _
  ]

  evaluate-union :
      (rules : List SgRule)
      → evaluate id rules direction traffic peer ≡ verdict_of_outcome (union_from 0 rules)
  unfolding evaluate outcomes_from
  evaluate-union rules =
      ap verdict_of_outcome
        (foldl-combine denied (outcomes_from 0 rules) ∙ denied-combine _ ∙ fold-union_from 0 rules)

  -- One of three cases holds: the first rule that permits the traffic is cited; or no
  -- rule permits it and the first undecided rule's group is named; or neither, and it is denied.
  pub evaluate-cases :
      (rules : List SgRule)
      → ((i : ℕ) × (rule : SgRule) × IsFirstAt (permits direction traffic peer) rules i rule
          × (evaluate id rules direction traffic peer ≡ Verdict.allowed (security_group id i)))
        ⊎ (All (λ rule. permits direction traffic peer rule ≡ false) rules
            × (i : ℕ) × (rule : SgRule) × IsFirstAt (undecided direction traffic) rules i rule
            × (evaluate id rules direction traffic peer
                ≡ Verdict.indeterminate (unresolved_reference (referenced rule.target))))
        ⊎ (All (λ rule. permits direction traffic peer rule ≡ false) rules
            × All (λ rule. undecided direction traffic rule ≡ false) rules
            × (evaluate id rules direction traffic peer ≡ Verdict.denied no_matching_rule))
  evaluate-cases rules = elim (first-cases (permits direction traffic peer) rules) [
    | inr (i, rule, f, e) ↦ inl (
      i,
      rule,
      f,
      evaluate-union rules
          ∙ ap
              (λ o.
                verdict_of_outcome (settle id o (first_from (undecided direction traffic) 0 rules)))
              e,
    )
    | inl (no_permit, e) ↦ elim (first-cases (undecided direction traffic) rules) [
      | inr (i, rule, f, e') ↦ inr (
          inl (
            no_permit,
            i,
            rule,
            f,
            evaluate-union rules ∙ ap₂ (λ o o'. verdict_of_outcome (settle id o o')) e e',
          ))
      | inl (no_unknown, e') ↦ inr (
          inr (
            no_permit,
            no_unknown,
            evaluate-union rules ∙ ap₂ (λ o o'. verdict_of_outcome (settle id o o')) e e',
          ))
    ]
  ]
