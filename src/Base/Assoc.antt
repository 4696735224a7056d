-- ===== src/Base/Assoc.antt =====
-- A map with text keys, `HashMap` or `BTreeMap`, as an association list. The program never depends
-- on the order in which a `HashMap` is walked.
use Prim.Native.String.{String}
use mathlib.Core.Path.{◌≡◌, refl}
use mathlib.Core.List.{List, [], ◌∷◌}
use mathlib.Core.Option.{Option, none, some}
use native.Mathlib.Omega.{arith}
use aws_net_hound.Base.Tests.{str_eq, str_eq_iff, if◌then◌else◌}

module _ {ℓ} {Value : Type ℓ} where
  unfoldable pub lookup : String → List (String × Value) → Option Value
  lookup key [] = none
  lookup key ((own, value) ∷ rest) = if str_eq own key then some value else lookup key rest

  -- A value that is there is replaced.
  unfoldable pub insert : String → Value → List (String × Value) → List (String × Value)
  insert key new [] = (key, new) ∷ []
  insert key new ((own, old) ∷ rest) =
      let inserted = insert key new rest in
      if str_eq own key then (own, new) ∷ rest else (own, old) ∷ inserted

  pub lookup-insert :
      (key sought : String) (new : Value) (entries : List (String × Value))
      → (if str_eq key sought then some new else lookup sought entries)
        ≡ lookup sought (insert key new entries)
  unfolding lookup insert
  lookup-insert key sought new [] = refl
  lookup-insert key sought new ((own, old) ∷ rest) =
      let hyp = lookup-insert key sought new rest in
      ground (arith, hyp, str_eq_iff own sought, str_eq_iff own key, str_eq_iff key sought)
