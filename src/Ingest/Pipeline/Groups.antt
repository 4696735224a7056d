-- ===== src/Ingest/Pipeline/Groups.antt =====
-- crates/core/src/ingest/pipeline.rs: proofs about the groups of a batch.
use mathlib.Core.List.{foldl, append_assoc, append-nil}
use aws_net_hound.Base.{
  ◌≡◌, refl, sym, ◌∙◌, List, [], ◌∷◌, ◌++◌, String, str_eq, if◌then◌else◌, Bool-cases, inl, inr,
}
use aws_net_hound.Base.Ordered.{push, group, group-push}
use aws_net_hound.Ingest.Pipeline.{group_by}

-- The values of a key, in the order of the pairs.
abbrev pub values_of : {V : Type 0} → String → List (String × V) → List V
values_of k [] = []
values_of k ((j, v) ∷ pairs) = if str_eq j k then v ∷ values_of k pairs else values_of k pairs

group_from :
    {V : Type 0} (k : String) (pairs : List (String × V)) (m : List (String × List V))
    → group k (foldl (λ grouped ((key, value) : String × V). push key value grouped) m pairs)
      ≡ group k m ++ values_of k pairs
group_from k [] m = sym (append-nil (group k m))
group_from k ((j, v) ∷ pairs) m = elim (Bool-cases (str_eq j k)) [
  | inl same ↦
      group_from k pairs (push j v m)
      ∙ rw (group-push j k v m, same) (append_assoc (group k m) (v ∷ []) _)
  | inr other ↦ group_from k pairs (push j v m) ∙ rw (group-push j k v m, other) refl
]

-- Each key's group is the values that stand with the key, in the order in which they come.
pub group-group_by :
    {V : Type 0} (k : String) (pairs : List (String × V))
    → group k (group_by pairs) ≡ values_of k pairs
unfolding group_by
group-group_by k pairs = group_from k pairs []
