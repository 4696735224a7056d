-- ===== src/Evaluate/Nacl/Reorder.antt =====
-- crates/core/src/evaluate/nacl.rs: proofs about `evaluate` on a permutation of the rules.
use mathlib.Core.List.Perm
use mathlib.Core.List.{Mem, Perm}
use aws_net_hound.Base.{◌≡◌, refl, sym, ap, ◌∙◌, inl, inr, true, List, String, arith}
use aws_net_hound.Base.Sort.Least.{IsFirstLeast-mem, IsFirstLeast-le, Misses-mem}
use aws_net_hound.Domain.Rule.{Direction, ingress, egress, NaclRule, same_direction}
use aws_net_hound.Evaluate.Types.{Traffic}
use aws_net_hound.Evaluate.Nacl.{verdict_of, evaluate}
use aws_net_hound.Evaluate.Nacl.FirstMatch.{Decides, NoneApplies, applies, evaluate-first_match}

-- No two rules of one direction share a number, as the EC2 API guarantees.
abbrev pub DistinctNumbers : List NaclRule → Type 0
DistinctNumbers rules =
    (r s : NaclRule)
    → Mem r rules
    → Mem s rules
    → r.direction ≡ s.direction
    → r.rule_number ≡ s.rule_number
    → r ≡ s

same_direction→eq : (d e : Direction) → same_direction d e ≡ true → d ≡ e
same_direction→eq ingress ingress h = refl
same_direction→eq egress egress h = refl
same_direction→eq ingress egress h = cc
same_direction→eq egress ingress h = cc

module _ (direction : Direction) (traffic : Traffic) where
  applies→direction : (r : NaclRule) → applies direction traffic r ≡ true → r.direction ≡ direction
  applies→direction r h = same_direction→eq r.direction direction (ground arith)

  -- The rule that decides is one and the same in both lists.
  Decides-unique :
      {rules rules' : List NaclRule} {r s : NaclRule}
      → Perm rules rules'
      → DistinctNumbers rules
      → Decides direction traffic rules r
      → Decides direction traffic rules' s
      → r ≡ s
  Decides-unique {r = r} {s = s} perm distinct dr ds =
      let key = λ (rule : NaclRule). rule.rule_number in
      let test = applies direction traffic in
      let r_in = IsFirstLeast-mem key test dr in
      let s_in = Perm.subset (Perm.symm perm) s (IsFirstLeast-mem key test ds) in
      let le = IsFirstLeast-le key test dr s_in ds.hit in
      let ge = IsFirstLeast-le key test ds (Perm.subset perm r r_in) dr.hit in
      distinct r s r_in s_in (applies→direction r dr.hit ∙ sym (applies→direction s ds.hit))
        (omega (arith, le, ge))

  Decides-not-NoneApplies :
      {rules rules' : List NaclRule} {r : NaclRule}
      → Perm rules rules'
      → Decides direction traffic rules r
      → ¬ NoneApplies direction traffic rules'
  Decides-not-NoneApplies {rules' = rules'} {r = r} perm d none_applies =
      let key = λ (rule : NaclRule). rule.rule_number in
      let test = applies direction traffic in
      let miss =
        Misses-mem key test rules' none_applies
          (Perm.subset perm r (IsFirstLeast-mem key test d)) in
      let hit : applies direction traffic r ≡ true = d.hit in cc (miss, hit)

  -- A permutation of the rules has the same verdict, if no two rules of a direction share a number.
  pub evaluate-perm :
      (id : String) (rules rules' : List NaclRule)
      → Perm rules rules'
      → DistinctNumbers rules
      → evaluate id rules direction traffic ≡ evaluate id rules' direction traffic
  evaluate-perm id rules rules' perm distinct =
      elim (evaluate-first_match id direction traffic rules) [
        | inl (none_applies, e) ↦ elim (evaluate-first_match id direction traffic rules') [
          | inl (_, e') ↦ e ∙ sym e'
          | inr (r, d, _) ↦ absurd (Decides-not-NoneApplies (Perm.symm perm) d none_applies)
        ]
        | inr (r, d, e) ↦ elim (evaluate-first_match id direction traffic rules') [
          | inl (none_applies, _) ↦ absurd (Decides-not-NoneApplies perm d none_applies)
          | inr (s, d', e') ↦ e ∙ ap (verdict_of id) (Decides-unique perm distinct d d') ∙ sym e'
        ]
      ]
