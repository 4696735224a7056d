-- ===== src/Migrations/Adds.antt =====
-- crates/core/src/migrations.rs: proofs about what the successful calls of a run record and read.
use aws_net_hound.Base.{
  ◌⊎◌, inl, inr, Bool-cases, ◌==◌, ◌≡◌, refl, sym, ap, ap₂, subst, ◌∙◌, ◌%◌, true, ℕ, List, [], ◌∷◌,
  ◌++◌, String, map, ok, codes, Result, ==_iff, arith, >>=-eq-ok, map_err, map_err-eq-ok,
}
use aws_net_hound.Base.Effect.{resume-eq-ok, pair_parts, wrap_result, wrap_result-eq-ok}
use aws_net_hound.Base.Streams.{Stream, closed, broken, item}
use aws_net_hound.Base.Traverse.{ok_unique, map_ok-eq-ok}
use aws_net_hound.Migrations.Types.{
  Connection, MigrationError, start_transaction, commit, record_version, read_applied_versions,
  read_applied_versions_deserialize, merge_version,
}
use aws_net_hound.Migrations.Files.{split_statements}
use aws_net_hound.Migrations.Ledger.{Ledger, Lists}
use aws_net_hound.Migrations.Kept.{
  or_rollback-ok, merged_waits, apply_statements-versions, apply_statements-held,
}
use aws_net_hound.Migrations.{
  as_u32, holds, start, commit_all, or_rollback, apply_statements, write_version, apply_version,
  read_versions, read_applied, applied_query,
}

-- The same numbers stand in both lists.
abbrev pub SameMembers : List ℕ → List ℕ → Type 0
SameMembers vs us = (v : ℕ) → holds vs v ≡ holds us v

holds_head : (v : ℕ) (vs : List ℕ) → holds (v ∷ vs) v ≡ true
holds_head v vs = ground (arith, ==_iff v v)

pub holds_tail : (v : ℕ) (vs : List ℕ) (w : ℕ) → holds vs w ≡ true → holds (v ∷ vs) w ≡ true
holds_tail v vs w h = ground (arith, h)

-- A version as a run reads it, in 32 bits.
abbrev pub wrapped : List ℕ → List ℕ
wrapped vs = map (λ v. v % 4294967296) vs

pub holds-wrapped :
    (vs : List ℕ) (v : ℕ) → holds vs v ≡ true → holds (wrapped vs) (v % 4294967296) ≡ true
holds-wrapped [] v h = absurd cc
holds-wrapped (u ∷ vs) v h = elim (Bool-cases (u == v)) [
  | inl same ↦ rw ((==_iff u v).0 same) (holds_head (v % 4294967296) (wrapped vs))
  | inr other ↦
      holds_tail (u % 4294967296) (wrapped vs) (v % 4294967296)
        (holds-wrapped vs v (ground (arith, h)))
]

-- A version that is read comes of one that is recorded.
holds-wrapped_elim :
    (vs : List ℕ) (w : ℕ)
    → holds (wrapped vs) w ≡ true
    → (v : ℕ) × (holds vs v ≡ true) × (v % 4294967296 ≡ w)
holds-wrapped_elim [] w h = absurd cc
holds-wrapped_elim (u ∷ vs) w h = elim (Bool-cases (u % 4294967296 == w)) [
  | inl same ↦ (u, holds_head u vs, (==_iff (u % 4294967296) w).0 same)
  | inr other ↦
      let (v, there, e) = holds-wrapped_elim vs w (ground (arith, h)) in
      (v, holds_tail u vs v there, e)
]

pub wrapped-SameMembers :
    (vs us : List ℕ) (w : ℕ)
    → SameMembers vs us
    → holds (wrapped vs) w ≡ true
    → holds (wrapped us) w ≡ true
wrapped-SameMembers vs us w same h =
    let (v, there, e) = holds-wrapped_elim vs w h in
    subst (λ w. holds (wrapped us) w ≡ true) e (holds-wrapped us v (sym (same v) ∙ there))

module _ {Store Txn Row Failure Mismatch : Type 0}
    (graph : Connection Store Txn Row Failure Mismatch) where
  -- A reply that is read to its end gives the versions that it lists.
  read_versions-Lists :
      (reply : Stream Failure Row) (vs already : List ℕ)
      → Lists graph reply vs
      → read_versions graph reply ≡ ok already
      → already ≡ map (λ v. v % 4294967296) vs
  unfolding read_versions
  read_versions-Lists closed [] already l h = sym (ok_unique refl h)
  read_versions-Lists closed (v ∷ vs) already l h = absurd l
  read_versions-Lists (broken failure) vs already l h = absurd cc
  read_versions-Lists (item r rest) [] already l h = absurd l
  read_versions-Lists (item r rest) (v ∷ vs) already l h =
      let (version, got, more) =
        >>=-eq-ok (map_err read_applied_versions_deserialize (graph.get_version r)) _ h in
      let (others, later, made) = map_ok-eq-ok _ (read_versions graph rest) more in
      sym made
      ∙ ap₂ (λ a b. a ∷ b) (ap as_u32 (ok_unique (map_err-eq-ok _ (graph.get_version r) got) l.0))
          (read_versions-Lists rest vs others l.1 later)

  module _ (ledger : Ledger graph) where
    open ledger use {
      versions, held, plain, reads, answers, started, ran, merged, merged_there, committed,
    }

    -- The version is recorded, and no other one is new.
    abbrev pub Adds : ℕ → Store → Store → Type 0
    Adds version store last =
        ((versions last ≡ versions store) ⊎ (versions last ≡ version ∷ versions store))
        × (holds (versions last) version ≡ true)

    write_version-Adds :
        (version : ℕ) (store last : Store)
        → write_version graph version store ≡ (last, ok tt)
        → Adds version store last
    unfolding write_version
    write_version-Adds version store last h =
        let (opened, txn, first, rest) = resume-eq-ok (start graph version store) _ h in
        let call = graph.run_in txn (merge_version version) opened in
        let (done, _, second, third) =
          resume-eq-ok (or_rollback graph txn (λ f. record_version version f) call) _ rest in
        let begun =
          wrap_result-eq-ok (λ f. start_transaction version f) (graph.start_txn store) first in
        let ran_well = or_rollback-ok graph txn (λ f. record_version version f) call done second in
        let finish = wrap_result-eq-ok (λ f. commit version f) (graph.commit_txn txn done) third in
        let opened_here = sym (ap (λ p. p.0) begun) in
        let empty = ap held opened_here ∙ (started store).1 in
        let here = ap (λ (p : Store × Result Failure (Unit {0})). p.0) ran_well in
        let same =
          ap versions (sym here)
          ∙ (merged txn version opened).0
          ∙ ap versions opened_here
          ∙ (started store).0 in
        let all = committed txn done last finish in
        (
          elim (merged_waits graph ledger txn version opened done empty here) [
            | inl found ↦ inl (all ∙ ap₂ (λ a b. a ++ b) found same)
            | inr waits ↦ inr (all ∙ ap₂ (λ a b. a ++ b) waits same)
          ],
          subst (λ vs. holds vs version ≡ true) (sym all)
              (merged_there txn version opened done ran_well),
        )

    -- A version that is applied is recorded, and no other one is new.
    pub apply_version-Adds :
        (version : ℕ) (cypher_source : String) (store last : Store)
        → apply_version graph version cypher_source store ≡ (last, ok tt)
        → Adds version store last
    unfolding apply_version
    apply_version-Adds version cypher_source store last h =
        let cyphers = split_statements (codes cypher_source) in
        let (opened, txn, first, rest) = resume-eq-ok (start graph version store) _ h in
        let (done, _, second, more) =
          resume-eq-ok (apply_statements graph txn version 0 cyphers opened) _ rest in
        let (later, _, third, fourth) = resume-eq-ok (commit_all graph txn version done) _ more in
        let begun =
          wrap_result-eq-ok (λ f. start_transaction version f) (graph.start_txn store) first in
        let finish = wrap_result-eq-ok (λ f. commit version f) (graph.commit_txn txn done) third in
        let opened_here = sym (ap (λ p. p.0) begun) in
        let waits = apply_statements-held graph ledger txn version 0 cyphers opened done second in
        let same =
          ap (λ (p : Store × Result (MigrationError Failure Mismatch) (Unit {0})). versions p.0)
            (sym second)
          ∙ apply_statements-versions graph ledger txn version 0 cyphers opened in
        let (adds, there) = write_version-Adds version later last fourth in
        let before =
          committed txn done later finish
          ∙ ap₂ (λ a b. a ++ b) (waits ∙ ap held opened_here ∙ (started store).1)
              (same ∙ ap versions opened_here ∙ (started store).0) in
        (
          elim adds [
            | inl none ↦ inl (none ∙ before)
            | inr one ↦ inr (one ∙ ap (λ l. version ∷ l) before)
          ],
          there,
        )

    pub read_applied-versions :
        (store last : Store) (already : List ℕ)
        → read_applied graph store ≡ (last, ok already)
        → (versions last ≡ versions store)
          × (vs : List ℕ) × SameMembers vs (versions store)
          × (already ≡ wrapped vs)
    unfolding read_applied
    read_applied-versions store last already h =
        let (later, reply, sent, read) =
          resume-eq-ok (wrap_result read_applied_versions (graph.execute applied_query store)) _
            h in
        let execute =
          wrap_result-eq-ok read_applied_versions (graph.execute applied_query store) sent in
        let (same, told) = pair_parts read in
        let (vs, lists, members) = answers store later reply execute in
        (
          ap versions (sym same)
              ∙ ap (λ (p : Store × Result Failure (Stream Failure Row)). versions p.0) (sym execute)
              ∙ reads applied_query store,
          vs,
          members,
          read_versions-Lists reply vs already lists told,
        )
