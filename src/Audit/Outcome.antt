-- ===== src/Audit/Outcome.antt =====
-- crates/audit-local/src/lib.rs and crates/audit-local/src/main.rs: the outcome of an audit, and the
-- exit code; `findings_to_outcome` of crates/audit-local/src/run.rs.
use mathlib.Core.Logic.{◌↔◌}
use aws_net_hound.Base.{
  ℕ, zero, suc, ◌==◌, Bool, true, false, ◌&&◌, List, [], ◌∷◌, filter, length, All, Result, ok, err,
  ◌≡◌, refl, if◌then◌else◌, arith,
}
use aws_net_hound.Domain.Finding.{
  Reachability, reachable, not_reachable, indeterminate, ReachabilityFinding,
}

pub data Outcome : Type 0 where
  clean : Outcome
  findings_present : (reachable indeterminate : ℕ) → Outcome

unfoldable pub exit_code : Outcome → ℕ
exit_code clean = 0
exit_code (findings_present _ _) = 2

-- The two patterns of the `matches!`.
abbrev pub is_reachable : Reachability → Bool
is_reachable reachable = true
is_reachable _ = false

abbrev pub is_indeterminate : Reachability → Bool
is_indeterminate (indeterminate _) = true
is_indeterminate _ = false

unfoldable pub findings_to_outcome : List ReachabilityFinding → Outcome
findings_to_outcome findings =
    let reachable_count = length (filter (λ finding. is_reachable finding.reachability) findings) in
    let indeterminate_count =
      length (filter (λ finding. is_indeterminate finding.reachability) findings) in
    if reachable_count == 0 && indeterminate_count == 0
    then clean
    else findings_present reachable_count indeterminate_count

-- What `main` hands to `exit`.
unfoldable pub process_code : {E : Type 0} → Result E Outcome → ℕ
unfolding exit_code
process_code (ok outcome) = exit_code outcome
process_code (err _) = 1

abbrev pub IsClosed : ReachabilityFinding → Type 0
IsClosed finding = finding.reachability ≡ not_reachable

abbrev Counted : ℕ → ℕ → Type 0
Counted reachable_count indeterminate_count = (reachable_count ≡ 0) × (indeterminate_count ≡ 0)

closed_iff :
    (r : Reachability)
    → ((is_reachable r ≡ false) × (is_indeterminate r ≡ false)) ↔ (r ≡ not_reachable)
closed_iff reachable = (λ h. absurd cc, λ h. absurd cc)
closed_iff not_reachable = (λ h. refl, λ h. (refl, refl))
closed_iff (indeterminate _) = (λ h. absurd cc, λ h. absurd cc)

cons_iff :
    {A P Q : Type 0} (p q : Bool) (x : A) (xs ys : List A)
    → (((p ≡ false) × (q ≡ false)) ↔ P)
    → (Counted (length xs) (length ys) ↔ Q)
    → Counted (length (if p then x ∷ xs else xs)) (length (if q then x ∷ ys else ys)) ↔ (P × Q)
cons_iff false false x xs ys (pf, pb) (qf, qb) = (λ h. (pf (refl, refl), qf h), λ h. qb h.1)
cons_iff true q x xs ys (pf, pb) (qf, qb) =
    (λ h. absurd (omega arith), λ h. let (wrong, _) = pb h.0 in absurd cc)
cons_iff false true x xs ys (pf, pb) (qf, qb) =
    (λ h. absurd (omega arith), λ h. let (_, wrong) = pb h.0 in absurd cc)

no_count_iff :
    (findings : List ReachabilityFinding)
    → Counted
        (length (filter (λ finding. is_reachable finding.reachability) findings))
        (length (filter (λ finding. is_indeterminate finding.reachability) findings))
      ↔ All IsClosed findings
no_count_iff [] = (λ _. tt, λ _. (refl, refl))
no_count_iff (finding ∷ findings) =
    cons_iff (is_reachable finding.reachability) (is_indeterminate finding.reachability) finding _ _
      (closed_iff finding.reachability) (no_count_iff findings)

zero_code :
    (a b : ℕ)
    → (exit_code (if a == 0 && b == 0 then clean else findings_present a b) ≡ 0) ↔ Counted a b
unfolding exit_code
zero_code zero zero = (λ _. (refl, refl), λ _. refl)
zero_code zero (suc b) = (λ h. absurd (grind arith), λ (_, h). absurd (omega arith))
zero_code (suc a) b = (λ h. absurd (grind arith), λ (h, _). absurd (omega arith))

-- The outcome of some findings has exit code 0 exactly when every one of them is not reachable.
pub exit_code-findings_to_outcome :
    (findings : List ReachabilityFinding)
    → (exit_code (findings_to_outcome findings) ≡ 0) ↔ All IsClosed findings
unfolding findings_to_outcome
exit_code-findings_to_outcome findings =
    let (none_counted, counted) = zero_code _ _ in
    let (to, from) = no_count_iff findings in (λ h. to (none_counted h), λ h. counted (from h))
