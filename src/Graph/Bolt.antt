-- ===== src/Graph/Bolt.antt =====
-- The values of `neo4rs::BoltType` that the program writes or reads. The other variants of the driver
-- are `other`: the program treats them all as a value of the wrong type.
use aws_net_hound.Base.{Bool, String, List}
use aws_net_hound.Base.Int.{ℤ}

pub data BoltType : Type 0 where
  string : String → BoltType
  integer : ℤ → BoltType
  boolean : Bool → BoltType
  null : BoltType
  other : BoltType

-- One `HashMap<String, BoltType>`: a row of a write, or the properties of an edge that was read.
abbrev pub Props : Type 0
Props = List (String × BoltType)
