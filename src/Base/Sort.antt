-- ===== src/Base/Sort.antt =====
-- `slice::sort_by_key`: a stable sort, so the result is the one list that is ascending by key
-- and keeps the order of equal keys. It is computed here by insertion.
pub mod Least
pub mod Order
use Prim.Native.Nat.{ℕ, ◌≤◌}
use mathlib.Core.Bool.{Bool}
use mathlib.Core.List.{List, [], ◌∷◌}
use mathlib.Core.Option.{Option, none, some}
use aws_net_hound.Base.Tests.{leb, if◌then◌else◌}
use aws_net_hound.Base.Lists.{All}

module _ {ℓ} {A : Type ℓ} (key : A → ℕ) where
  pub insert_by_key : A → List A → List A
  insert_by_key x [] = x ∷ []
  insert_by_key x (y ∷ ys) = if leb (key x) (key y) then x ∷ y ∷ ys else y ∷ insert_by_key x ys

  unfoldable pub sort_by_key : List A → List A
  unfolding insert_by_key
  sort_by_key [] = []
  sort_by_key (x ∷ xs) = insert_by_key x (sort_by_key xs)

  abbrev pub IsSortedBy : List A → Type 0
  IsSortedBy [] = Unit
  IsSortedBy (x ∷ xs) = All (λ y. key x ≤ key y) xs × IsSortedBy xs

  -- The first element that passes the test, among those of the least key.
  abbrev pub pick : A → Option A → A
  pick x none = x
  pick x (some y) = if leb (key x) (key y) then x else y

  abbrev pub first_least : (A → Bool) → List A → Option A
  first_least p [] = none
  first_least p (x ∷ xs) = if p x then some (pick x (first_least p xs)) else first_least p xs
