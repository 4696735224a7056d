-- ===== src/Evaluate/Nacl/FirstMatch.antt =====
-- crates/core/src/evaluate/nacl.rs: proofs about the rule order of `evaluate`.
use aws_net_hound.Base.{
  ◌≡◌, ap, ◌∙◌, ◌⊎◌, inl, inr, ◌&&◌, Bool, false, List, String, All, true, ◌↔◌, arith,
}
use aws_net_hound.Base.Sort.{first_least}
use aws_net_hound.Base.Sort.Least.{
  IsFirstLeast, first_least_of_IsFirstLeast, find?-sort_by_key, first_least-filter,
  first_least-cases,
}
use aws_net_hound.Domain.Rule.{Direction, NaclRule, allow, same_direction}
use aws_net_hound.Evaluate.Types.{Traffic, denied, no_matching_rule, is_allowed}
use aws_net_hound.Evaluate.Nacl.{rule_matches, verdict_of, verdict_of_match, evaluate}

-- The rule is of this direction and matches the traffic.
abbrev pub applies : Direction → Traffic → NaclRule → Bool
applies direction traffic rule =
    same_direction rule.direction direction && rule_matches rule traffic

-- `rule` applies, no rule that applies has a smaller number, and of its number it is the first.
abbrev pub Decides : Direction → Traffic → List NaclRule → NaclRule → Type 0
Decides direction traffic = IsFirstLeast (λ rule. rule.rule_number) (applies direction traffic)

abbrev pub NoneApplies : Direction → Traffic → List NaclRule → Type 0
NoneApplies direction traffic rules = All (λ rule. applies direction traffic rule ≡ false) rules

module _ (id : String) (direction : Direction) (traffic : Traffic) where
  evaluate-first_least :
      (rules : List NaclRule)
      → evaluate id rules direction traffic
        ≡ verdict_of_match id
            (first_least (λ rule. rule.rule_number) (applies direction traffic) rules)
  unfolding evaluate
  evaluate-first_least rules = ap (verdict_of_match id) (
      find?-sort_by_key (λ rule. rule.rule_number) (λ rule. rule_matches rule traffic) _
      ∙ first_least-filter (λ rule. rule.rule_number) (λ rule. rule_matches rule traffic)
          (λ rule. same_direction rule.direction direction) rules)

  -- The rule that decides gives the verdict.
  pub evaluate_of_Decides :
      {rules : List NaclRule} {rule : NaclRule}
      → Decides direction traffic rules rule
      → evaluate id rules direction traffic ≡ verdict_of id rule
  evaluate_of_Decides {rules} {rule} decides =
      evaluate-first_least rules
      ∙ ap (verdict_of_match id) (
          first_least_of_IsFirstLeast (λ rule. rule.rule_number) (applies direction traffic)
            decides)

  -- Either no rule applies and the verdict is the implicit deny, or the rule that decides gives it.
  pub evaluate-first_match :
      (rules : List NaclRule)
      → (NoneApplies direction traffic rules
          × (evaluate id rules direction traffic ≡ denied no_matching_rule))
        ⊎ ((rule : NaclRule) × Decides direction traffic rules rule
            × (evaluate id rules direction traffic ≡ verdict_of id rule))
  evaluate-first_match rules =
      elim (first_least-cases (λ rule. rule.rule_number) (applies direction traffic) rules) [
        | inl (none_applies, e) ↦
            inl (none_applies, evaluate-first_least rules ∙ ap (verdict_of_match id) e)
        | inr (rule, decides, e) ↦
            inr (rule, decides, evaluate-first_least rules ∙ ap (verdict_of_match id) e)
      ]

  -- The verdict is an allow exactly when the rule that decides is an allow rule.
  pub is_allowed-evaluate_iff :
      (rules : List NaclRule)
      → (is_allowed (evaluate id rules direction traffic) ≡ true)
        ↔ ((rule : NaclRule) × Decides direction traffic rules rule × (rule.action ≡ allow))
  is_allowed-evaluate_iff rules = (
    (λ h. elim (evaluate-first_match rules) [
      | inl (_, e) ↦ cc (h, e)
      | inr (rule, decides, e) ↦ (rule, decides, ground arith)
    ]),
    (λ (rule, decides, act). rw (evaluate_of_Decides decides) (ground arith)),
  )
