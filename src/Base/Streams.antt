-- ===== src/Base/Streams.antt =====
-- What the `next` of a stream gives, call after call: items, then the end or an error.
use mathlib.Core.List.{List, [], ◌∷◌}
use mathlib.Core.Option.{Option, none, some}

pub data Stream (Failure Item : Type 0) : Type 0 where
  closed : Stream Failure Item
  broken : Failure → Stream Failure Item
  item : Item → Stream Failure Item → Stream Failure Item

module _ {Failure Item : Type 0} where
  abbrev pub items_of : Stream Failure Item → List Item
  items_of closed = []
  items_of (broken failure) = []
  items_of (item x rest) = x ∷ items_of rest

  abbrev pub failure_of : Stream Failure Item → Option Failure
  failure_of closed = none
  failure_of (broken failure) = some failure
  failure_of (item x rest) = failure_of rest
