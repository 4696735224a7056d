-- ===== src/Ingest/Nodes/Kept.antt =====
-- crates/core/src/ingest/map/topology.rs: proofs about `map_nodes`.
use aws_net_hound.Base.{
  ◌≡◌, refl, sym, ap, subst, ◌∙◌, Bool, true, false, List, [], ◌∷◌, ◌++◌, String, All, zip, filter,
  map, ok, err, ℕ, suc, ◌+◌, length, length-append, arith, Result-cases, inl, inr,
}
use mathlib.Core.List.{append-nil, append_assoc}
use aws_net_hound.Ingest.Ports.{MappingError, Mapped}
use aws_net_hound.Ingest.Nodes.{MappedNodes, map_nodes}

abbrev pub is_ok : {A : Type 0} → Mapped A → Bool
is_ok (ok _) = true
is_ok (err _) = false

abbrev pub errors_of : {A : Type 0} → List (Mapped A) → List MappingError
errors_of [] = []
errors_of (ok _ ∷ rs) = errors_of rs
errors_of (err e ∷ rs) = e ∷ errors_of rs

module _ {T R : Type 0} (map_one : T → String → Mapped R) (account_id : String) where
  -- The items that map are kept in order with their records, and the errors of the others are
  -- appended in order.
  pub record IsKept (items : List T) (before : List MappingError) (after : MappedNodes T R)
      : Type 0 where
    pub raw : after.raw ≡ filter (λ item. is_ok (map_one item account_id)) items
    pub records : map ok after.records ≡ map (λ item. map_one item account_id) after.raw
    pub errors : after.errors ≡ before ++ errors_of (map (λ item. map_one item account_id) items)

  abbrev pub kept : T → R → MappedNodes T R → MappedNodes T R
  kept item mapped rest = record {
    raw = item ∷ rest.raw;
    records = mapped ∷ rest.records;
    errors = rest.errors;
  }

  abbrev pub nodes : List T → List MappingError → MappedNodes T R
  nodes items errors = map_nodes items map_one account_id errors

  nodes_of_ok :
      (item : T) (items : List T) (errors : List MappingError) {mapped : R}
      → map_one item account_id ≡ ok mapped
      → kept item mapped (nodes items errors) ≡ nodes (item ∷ items) errors
  unfolding map_nodes
  nodes_of_ok item items errors e = sym (rw (e, map_nodes) refl)

  nodes_of_err :
      (item : T) (items : List T) (errors : List MappingError) {error : MappingError}
      → map_one item account_id ≡ err error
      → nodes items (errors ++ error ∷ []) ≡ nodes (item ∷ items) errors
  unfolding map_nodes
  nodes_of_err item items errors e = ground arith

  abbrev pub IsPaired : MappedNodes T R → Type 0
  IsPaired after = All (λ p. map_one p.0 account_id ≡ ok p.1) (zip after.raw after.records)

  -- Every record that is kept stands beside the item that it was mapped from.
  pub map_nodes-IsPaired :
      (items : List T) (errors : List MappingError) → IsPaired (nodes items errors)
  unfolding map_nodes
  map_nodes-IsPaired [] errors = tt
  map_nodes-IsPaired (item ∷ items) errors = elim (Result-cases (map_one item account_id)) [
    | inl (mapped, e) ↦
        subst IsPaired (nodes_of_ok item items errors e) (e, map_nodes-IsPaired items errors)
    | inr (error, e) ↦
        subst IsPaired (nodes_of_err item items errors e)
          (map_nodes-IsPaired items (errors ++ error ∷ []))
  ]

  abbrev HasLength : ℕ → MappedNodes T R → Type 0
  HasLength n after = length after.records + length after.errors ≡ n

  -- Every item has a record or an error.
  pub map_nodes-length :
      (items : List T) (errors : List MappingError)
      → HasLength (length items + length errors) (nodes items errors)
  unfolding map_nodes
  map_nodes-length [] errors = refl
  map_nodes-length (item ∷ items) errors = elim (Result-cases (map_one item account_id)) [
    | inl (mapped, e) ↦
        subst (HasLength (suc (length items) + length errors)) (nodes_of_ok item items errors e)
          (omega (arith, map_nodes-length items errors))
    | inr (error, e) ↦
        subst (HasLength (suc (length items) + length errors)) (nodes_of_err item items errors e) (
          omega (
            arith,
            map_nodes-length items (errors ++ error ∷ []),
            length-append errors (error ∷ []),
          ))
  ]

  -- Of the items, those that map are kept, in order and with their records; the errors of the others
  -- are appended, in order, to the errors that there were.
  pub map_nodes_lem :
      (items : List T) (errors : List MappingError) → IsKept items errors (nodes items errors)
  unfolding map_nodes
  map_nodes_lem [] errors = record { raw = refl; records = refl; errors = sym (append-nil errors) }
  map_nodes_lem (item ∷ items) errors = elim (Result-cases (map_one item account_id)) [
    | inl (mapped, e) ↦
        let rest = map_nodes_lem items errors in
        subst (IsKept (item ∷ items) errors) (nodes_of_ok item items errors e) (record {
          raw = rw e (ap (λ xs. item ∷ xs) rest.raw);
          records = rw e (ap (λ xs. ok mapped ∷ xs) rest.records);
          errors = rw e rest.errors;
        })
    | inr (error, e) ↦
        let rest = map_nodes_lem items (errors ++ error ∷ []) in
        subst (IsKept (item ∷ items) errors) (nodes_of_err item items errors e) (record {
          raw = rw e rest.raw;
          records = rest.records;
          errors = rw e (rest.errors ∙ append_assoc errors (error ∷ []) _);
        })
  ]
