-- ===== src/Evaluate/Candidates/Complete.antt =====
-- crates/core/src/evaluate/candidates.rs: proofs that no pair of interfaces is left out.
use mathlib.Core.List.{Mem, mem-append_left, mem-append_right, mem-cons_self, mem-cons_of_mem}
use aws_net_hound.Base.{
  ◌≡◌, subst, true, false, not, some, List, [], ◌∷◌, String, filter, contains, All, All-map, inl,
  inr, Option-cases, refl,
}
use aws_net_hound.Base.Every.{All-filter_elim, some_unique}
use aws_net_hound.Net.{IpAddr, codes, parse_ip_addr}
use aws_net_hound.Evaluate.Path.{PathCandidate}
use aws_net_hound.Evaluate.Candidates.{
  EniNode, RouteTargets, BoundarySelectors, candidate_of, candidates_of, pair_with, pair_all,
}
use aws_net_hound.Evaluate.Candidates.Pairs.{
  IsPair, pair_with_of_none, pair_with_of_some, candidates_of-IsPair,
}

module _ (boundary_id : String) (targets : RouteTargets) (selectors : BoundarySelectors) where
  -- Where the address of the source parses, the candidate of the two is in the list.
  abbrev Judged : List PathCandidate → EniNode → EniNode → Type 0
  Judged candidates destination source =
      (address : IpAddr)
      → parse_ip_addr (codes source.private_ip) ≡ some address
      → Mem (candidate_of boundary_id targets destination source address) candidates

  -- Where one list is part of another, who is judged in it is judged in the other.
  Judged-wider :
      (smaller larger : List PathCandidate)
      → ((c : PathCandidate) → Mem c smaller → Mem c larger)
      → (destination : EniNode) (sources : List EniNode) → All (Judged smaller destination) sources
      → All (Judged larger destination) sources
  Judged-wider smaller larger wider destination sources h =
      All-map (Judged larger destination)
        (λ source judged address parsed. wider _ (judged address parsed)) sources h

  pair_with-Judged :
      (destination : EniNode) (sources : List EniNode)
      → All (Judged (pair_with boundary_id targets destination sources) destination) sources
  pair_with-Judged destination [] = tt
  pair_with-Judged destination (source ∷ sources) =
      let rest = pair_with-Judged destination sources in
      elim (Option-cases (parse_ip_addr (codes source.private_ip))) [
        | inl unparsed ↦
            subst (λ cs. All (Judged cs destination) (source ∷ sources))
              (pair_with_of_none boundary_id targets selectors destination source sources unparsed)
              ((λ address parsed. absurd (cc (unparsed, parsed))), rest)
        | inr (address, parsed) ↦
            subst (λ cs. All (Judged cs destination) (source ∷ sources))
              (pair_with_of_some boundary_id targets selectors destination source sources address
                parsed)
              (
                (λ other known.
                    subst
                      (λ (a : IpAddr). Mem (candidate_of boundary_id targets destination source a) (
                        candidate_of boundary_id targets destination source address
                        ∷ pair_with boundary_id targets destination sources))
                      (some_unique parsed known) mem-cons_self),
                Judged-wider _ _ (λ c. mem-cons_of_mem _) destination sources rest,
              )
      ]

  pair_all-Judged :
      (destinations sources : List EniNode)
      → All
          (λ destination.
            All (Judged (pair_all boundary_id targets destinations sources) destination) sources)
          destinations
  unfolding pair_all
  pair_all-Judged [] sources = tt
  pair_all-Judged (destination ∷ destinations) sources =
      let first = pair_with boundary_id targets destination sources in
      let others = pair_all boundary_id targets destinations sources in
      (
        Judged-wider _ _ (λ c. mem-append_left others) destination sources
            (pair_with-Judged destination sources),
        All-map _ (λ other. Judged-wider _ _ (λ c. mem-append_right first) other sources)
            destinations (pair_all-Judged destinations sources),
      )

  -- For all two of the interfaces, one inside and one outside, whose address parses, the candidate of
  -- the two is in the list.
  abbrev pub IsComplete : List EniNode → List PathCandidate → Type 0
  IsComplete enis candidates =
      All
        (λ destination.
          contains selectors.vpc_ids destination.vpc_id ≡ true
          → All
              (λ source.
                contains selectors.vpc_ids source.vpc_id ≡ false
                → Judged candidates destination source)
              enis)
        enis

  -- The candidates are exactly the pairs of two of the given interfaces, a destination in a VPC of the
  -- boundary and a source outside them whose address parses: each candidate is made of such a pair,
  -- and each such pair has its candidate.
  pub candidates_of_lem :
      (enis : List EniNode)
      → All
          (IsPair boundary_id targets selectors enis)
          (candidates_of enis targets boundary_id selectors)
        × IsComplete enis (candidates_of enis targets boundary_id selectors)
  unfolding candidates_of
  candidates_of_lem enis = (
    candidates_of-IsPair boundary_id targets selectors enis,
    All-map _
        (λ destination h inside.
          All-map _ (λ source judged outside. judged (rw outside refl)) enis
            (All-filter_elim _ _ enis (h inside)))
        enis
        (All-filter_elim _ _ enis (
          pair_all-Judged (filter (λ eni. contains selectors.vpc_ids eni.vpc_id) enis)
            (filter (λ eni. not (contains selectors.vpc_ids eni.vpc_id)) enis))),
  )
