-- ===== src/Evaluate/Sg/Strength.antt =====
-- crates/core/src/evaluate/sg.rs: proofs about the strength of the verdict of `evaluate`.
use Prim.Native.Nat.{max}
use mathlib.Core.List.{Perm}
use aws_net_hound.Base.{
  ℕ, ◌≡◌, sym, ap, ap₂, ◌∙◌, inl, inr, Bool, true, false, ◌||◌, List, [], ◌∷◌, ◌++◌, String, any,
  All, refl,
}
use aws_net_hound.Base.First.{IsFirstAt, any-append, any-perm}
use aws_net_hound.Domain.Rule.{Direction, SgRule}
use aws_net_hound.Evaluate.Types.{Traffic, Verdict, allowed, denied, indeterminate, is_allowed}
use aws_net_hound.Evaluate.Sg.{PeerIdentity, evaluate}
use aws_net_hound.Evaluate.Sg.Union.{permits, undecided, evaluate-cases}

-- Allowed beats indeterminate, and indeterminate beats denied.
abbrev pub strength : Verdict → ℕ
strength (allowed _) = 2
strength (indeterminate _) = 1
strength (denied _) = 0

abbrev strength_of : Bool → Bool → ℕ
strength_of true _ = 2
strength_of false true = 1
strength_of false false = 0

strength_of-max :
    (p q u v : Bool) → strength_of (p || q) (u || v) ≡ max (strength_of p u) (strength_of q v)
strength_of-max true true u v = refl
strength_of-max true false u true = refl
strength_of-max true false u false = refl
strength_of-max false true true v = refl
strength_of-max false true false v = refl
strength_of-max false false true true = refl
strength_of-max false false true false = refl
strength_of-max false false false true = refl
strength_of-max false false false false = refl

module _ {ℓ} {A : Type ℓ} (p : A → Bool) where
  any_of_misses : (xs : List A) → All (λ x. p x ≡ false) xs → any p xs ≡ false
  any_of_misses [] h = refl
  any_of_misses (x ∷ xs) h = rw h.0 (any_of_misses xs h.1)

  any_of_first : {xs : List A} {i : ℕ} {x : A} → IsFirstAt p xs i x → any p xs ≡ true
  any_of_first {x = x} f =
      ap (any p) f.split
      ∙ any-append p f.before (x ∷ f.after)
      ∙ rw (any_of_misses f.before f.earlier, f.hit)

module _ (id : String) (direction : Direction) (traffic : Traffic) (peer : PeerIdentity) where
  evaluate-strength_of :
      (rules : List SgRule)
      → strength (evaluate id rules direction traffic peer)
        ≡ strength_of
            (any (permits direction traffic peer) rules)
            (any (undecided direction traffic) rules)
  evaluate-strength_of rules = elim (evaluate-cases id direction traffic peer rules) [
    | inl (i, rule, f, e) ↦
        ap strength e
        ∙ sym (ap (λ p. strength_of p (any (undecided direction traffic) rules)) (any_of_first _ f))
    | inr (inl (no_permit, i, rule, f, e)) ↦
        ap strength e ∙ sym (ap₂ strength_of (any_of_misses _ rules no_permit) (any_of_first _ f))
    | inr (inr (no_permit, no_unknown, e)) ↦
        ap strength e
        ∙ sym (ap₂ strength_of (any_of_misses _ rules no_permit) (any_of_misses _ rules no_unknown))
  ]

  -- The rules of two groups together are as strong as the stronger of the two.
  pub evaluate-append_strength :
      (rules more : List SgRule)
      → strength (evaluate id (rules ++ more) direction traffic peer)
        ≡ max
            (strength (evaluate id rules direction traffic peer))
            (strength (evaluate id more direction traffic peer))
  evaluate-append_strength rules more =
      evaluate-strength_of (rules ++ more)
      ∙ ap₂ strength_of (any-append _ rules more) (any-append _ rules more)
      ∙ strength_of-max (any (permits direction traffic peer) rules) _ _ _
      ∙ sym (ap₂ max (evaluate-strength_of rules) (evaluate-strength_of more))

  -- The order of the rules does not change whether the verdict is allowed, indeterminate or denied.
  pub evaluate-perm_strength :
      (rules rules' : List SgRule)
      → Perm rules rules'
      → strength (evaluate id rules direction traffic peer)
        ≡ strength (evaluate id rules' direction traffic peer)
  evaluate-perm_strength rules rules' perm =
      evaluate-strength_of rules
      ∙ ap₂ strength_of (any-perm _ perm) (any-perm _ perm)
      ∙ sym (evaluate-strength_of rules')

  -- The verdict is an allow exactly when some rule permits the traffic.
  pub is_allowed-evaluate :
      (rules : List SgRule)
      → is_allowed (evaluate id rules direction traffic peer)
        ≡ any (permits direction traffic peer) rules
  is_allowed-evaluate rules = elim (evaluate-cases id direction traffic peer rules) [
    | inl (i, rule, f, e) ↦ ap is_allowed e ∙ sym (any_of_first _ f)
    | inr (inl (no_permit, i, rule, f, e)) ↦ ap is_allowed e ∙ sym (any_of_misses _ rules no_permit)
    | inr (inr (no_permit, no_unknown, e)) ↦ ap is_allowed e ∙ sym (any_of_misses _ rules no_permit)
  ]
