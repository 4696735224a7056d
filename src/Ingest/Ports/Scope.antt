-- ===== src/Ingest/Ports/Scope.antt =====
-- crates/core/src/ingest/map: proofs about the ports of a mapped rule.
use aws_net_hound.Base.{
  ℕ, ◌≡◌, Bool, true, ◌&&◌, ◌||◌, Option, none, some, String, str_eq, leb, ◌==◌, ok, arith,
  Bool-cases, inl, inr,
}
use aws_net_hound.Base.Int.{ℤ, pos, negsuc}
use aws_net_hound.Domain.Rule.{PortRange, new_port_range}
use aws_net_hound.Domain.Valid.{IsPortRange}
use aws_net_hound.Evaluate.Match.{port_matches}
use aws_net_hound.Ingest.Ports.{build_port_range, normalised, ports_of, normalise, both}

-- A port is in the scope of a pair of bounds: a negative bound says nothing, and a lone bound is the
-- one value that is meant.
abbrev pub within : ℤ → ℤ → ℕ → Bool
within (negsuc _) (negsuc _) port = true
within (negsuc _) (pos to) port = to == port
within (pos from) (negsuc _) port = from == port
within (pos from) (pos to) port = leb from port && leb port to

abbrev pub in_scope : String → Option ℤ → Option ℤ → ℕ → Bool
in_scope protocol (some from) (some to) port = str_eq protocol "-1" || within from to port
in_scope protocol _ _ port = true

ports_of-IsPortRange :
    (id field : String) (bounds : Option (ℤ × ℤ)) (range : Option PortRange)
    → ports_of id field bounds ≡ ok range
    → IsPortRange range
unfolding new_port_range
ports_of-IsPortRange id field bounds none h = tt
ports_of-IsPortRange id field none (some range) h = ground arith
ports_of-IsPortRange id field (some (pos from, pos to)) (some range) h = ground arith
ports_of-IsPortRange id field (some (negsuc _, _)) (some range) h = ground arith
ports_of-IsPortRange id field (some (pos _, negsuc _)) (some range) h = ground arith

-- Whatever the API says, the ports of a mapped rule are in order and of sixteen bits.
pub build_port_range-IsPortRange :
    (id field protocol : String) (from to : Option ℤ) (range : Option PortRange)
    → build_port_range id field protocol from to ≡ ok range
    → IsPortRange range
unfolding build_port_range
build_port_range-IsPortRange id field protocol from to none h = tt
build_port_range-IsPortRange id field protocol from to (some range) h =
    elim (Bool-cases (str_eq protocol "-1")) [
      | inl all ↦ ground arith
      | inr _ ↦ ports_of-IsPortRange id field (normalise (both from to)) (some range) (ground arith)
    ]

-- Where the ports of a rule map at all, they admit a port exactly when it is in the scope of the
-- bounds of the answer.
pub port_matches-build_port_range :
    (id field protocol : String) (from to : Option ℤ) (range : Option PortRange)
    → build_port_range id field protocol from to ≡ ok range
    → (port : ℕ) → port_matches range (some port) ≡ in_scope protocol from to port
unfolding build_port_range normalised new_port_range port_matches
port_matches-build_port_range id field protocol none to range h port = ground arith
port_matches-build_port_range id field protocol (some from) none range h port = ground arith
port_matches-build_port_range id field protocol (some (negsuc _)) (some (negsuc _)) range h port =
    ground arith
port_matches-build_port_range id field protocol (some (negsuc _)) (some (pos to)) range h port =
    ground arith
port_matches-build_port_range id field protocol (some (pos from)) (some (negsuc _)) range h port =
    ground arith
port_matches-build_port_range id field protocol (some (pos from)) (some (pos to)) range h port =
    ground arith
