-- ===== src/Evaluate/Candidates/Fetch.antt =====
-- crates/core/src/evaluate/candidates.rs: the two queries, as streams of rows, and the assembly.
use aws_net_hound.Base.{Option, List, [], ◌∷◌, String, ok, err, ok_or, ◌>>=◌}
use aws_net_hound.Base.Assoc.{insert}
use aws_net_hound.Evaluate.Path.{PathCandidate}
use aws_net_hound.Evaluate.Candidates.{EniNode, RouteTargets, BoundarySelectors, candidates_of}
use aws_net_hound.Evaluate.Candidates.Rows.{Read, query, deserialize, EniRow, eni_from_row}

-- What `stream.next()` gives, call after call: rows, then the end or an error of the driver.
pub data RowStream (R : Type 0) : Type 0 where
  closed : RowStream R
  broken : RowStream R
  row : R → RowStream R → RowStream R

-- `graph.execute(..)`: no stream where that is an error.
abbrev pub Executed : Type 0 → Type 0
Executed R = Option (RowStream R)

drain_enis : RowStream EniRow → Read (List EniNode)
drain_enis closed = ok []
drain_enis broken = err query
drain_enis (row r rest) = eni_from_row r >>= λ eni. drain_enis rest >>= λ enis. ok (eni ∷ enis)

unfoldable pub fetch_enis : Executed EniRow → Read (List EniNode)
unfolding drain_enis
fetch_enis executed = ok_or query executed >>= drain_enis

pub record RouteRow : Type 0 where
  pub route_table_id : Option String
  pub target_vpc_ids : Option (List String)

drain_targets : RouteTargets → RowStream RouteRow → Read RouteTargets
drain_targets targets closed = ok targets
drain_targets targets broken = err query
drain_targets targets (row r rest) = ok_or deserialize r.route_table_id >>= λ route_table_id.
    ok_or deserialize r.target_vpc_ids >>= λ target_vpc_ids.
    drain_targets (insert route_table_id target_vpc_ids targets) rest

unfoldable pub fetch_route_table_targets : Executed RouteRow → Read RouteTargets
unfolding drain_targets
fetch_route_table_targets executed = ok_or query executed >>= drain_targets []

unfoldable pub assemble_candidates :
    Executed EniRow → Executed RouteRow → String → BoundarySelectors → Read (List PathCandidate)
assemble_candidates eni_rows route_rows boundary_id selectors = do
  enis ← fetch_enis eni_rows
  route_targets ← fetch_route_table_targets route_rows
  ok (candidates_of enis route_targets boundary_id selectors)
