-- ===== src/Base/Ordered.antt =====
-- `BTreeMap` with text keys: an association list in the order of its keys.
use Prim.Native.Nat.{ℕ}
use Prim.Native.String.{String}
use mathlib.Core.Path.{◌≡◌, refl}
use mathlib.Core.Bool.{Bool, true, false, ◌||◌}
use mathlib.Core.List.{◌++◌, foldl, map, List, [], ◌∷◌, ◌++◌}
use native.Mathlib.Omega.{arith}
use mathlib.Core.Logic.{inl, inr}
use aws_net_hound.Base.Lists.{All, contains}
use aws_net_hound.Base.Tests.{Bool-cases, str_eq, str_eq_iff, if◌then◌else◌, codes, ltb, ◌==◌}

-- `<` on Rust's `str`, which goes by bytes: the same as by code points.
abbrev pub codes_less : List ℕ → List ℕ → Bool
codes_less [] [] = false
codes_less [] (d ∷ ds) = true
codes_less (c ∷ cs) [] = false
codes_less (c ∷ cs) (d ∷ ds) = if c == d then codes_less cs ds else ltb c d

abbrev pub str_less : String → String → Bool
str_less s t = codes_less (codes s) (codes t)

module _ {ℓ} {V : Type ℓ} where
  -- `entry(k).or_insert_with(|| v)`.
  unfoldable pub or_insert : String → V → List (String × V) → List (String × V)
  or_insert k v [] = (k, v) ∷ []
  or_insert k v ((j, w) ∷ m) =
      let rest = or_insert k v m in
      if str_eq j k then (j, w) ∷ m else if str_less k j then (k, v) ∷ (j, w) ∷ m else (j, w) ∷ rest

  abbrev pub has_key : String → List (String × V) → Bool
  has_key k [] = false
  has_key k ((j, _) ∷ m) = str_eq j k || has_key k m

  abbrev pub insert_new : String → V → List (String × V) → List (String × V)
  insert_new k v [] = (k, v) ∷ []
  insert_new k v ((j, w) ∷ m) =
      let rest = insert_new k v m in if str_less k j then (k, v) ∷ (j, w) ∷ m else (j, w) ∷ rest

  pub has_key-or_insert :
      (k j : String) (v : V) (m : List (String × V))
      → has_key j (or_insert k v m) ≡ (str_eq k j || has_key j m)
  unfolding or_insert
  has_key-or_insert k j v [] = refl
  has_key-or_insert k j v ((i, w) ∷ m) =
      ground (arith, str_eq_iff k j, str_eq_iff i k, str_eq_iff i j, has_key-or_insert k j v m)

  abbrev pub values : List (String × V) → List V
  values [] = []
  values ((_, v) ∷ m) = v ∷ values m

  -- The keys that a run of insertions leaves.
  module _ {κ} {X : Type κ} (key : X → String) (value : X → V) where
    abbrev pub insert_all : List (String × V) → List X → List (String × V)
    insert_all m xs = foldl (λ m x. or_insert (key x) (value x) m) m xs

    pub insert_all-keeps :
        (j : String) (xs : List X) (m : List (String × V))
        → has_key j m ≡ true
        → has_key j (insert_all m xs) ≡ true
    insert_all-keeps j [] m h = h
    insert_all-keeps j (x ∷ xs) m h =
        insert_all-keeps j xs _ (ground (arith, has_key-or_insert (key x) j (value x) m))

    pub insert_all-has :
        (xs : List X) (m : List (String × V))
        → All (λ x. has_key (key x) (insert_all m xs) ≡ true) xs
    insert_all-has [] m = tt
    insert_all-has (x ∷ xs) m = (
      insert_all-keeps (key x) xs _ (
          ground
            (arith, has_key-or_insert (key x) (key x) (value x) m, str_eq_iff (key x) (key x))),
      insert_all-has xs _,
    )

  -- A map whose values carry their keys.
  module _ (id : V → String) where
    abbrev pub CarriesKeys : List (String × V) → Type 0
    CarriesKeys m = All (λ ((k, v) : String × V). id v ≡ k) m

    or_insert-CarriesKeys :
        (k : String) (v : V) (m : List (String × V))
        → id v ≡ k
        → CarriesKeys m
        → CarriesKeys (or_insert k v m)
    unfolding or_insert
    or_insert-CarriesKeys k v [] e h = (e, tt)
    or_insert-CarriesKeys k v ((j, w) ∷ m) e h = elim (Bool-cases (str_eq j k)) [
      | inl same ↦ rw same h
      | inr other ↦ elim (Bool-cases (str_less k j)) [
        | inl before ↦ rw (other, before) (e, h)
        | inr after ↦ rw (other, after) (h.0, or_insert-CarriesKeys k v m e h.1)
      ]
    ]

    pub insert_all-CarriesKeys {κ} :
        {X : Type κ} (key : X → String) (value : X → V)
        → ((x : X) → id (value x) ≡ key x)
        → (xs : List X) (m : List (String × V)) → CarriesKeys m
        → CarriesKeys (insert_all key value m xs)
    insert_all-CarriesKeys key value e [] m h = h
    insert_all-CarriesKeys key value e (x ∷ xs) m h =
        insert_all-CarriesKeys key value e xs _ (or_insert-CarriesKeys (key x) (value x) m (e x) h)

    pub contains_of_has_key :
        (j : String) (m : List (String × V))
        → CarriesKeys m
        → has_key j m ≡ true
        → contains (map id (values m)) j ≡ true
    contains_of_has_key j [] c h = h
    contains_of_has_key j ((k, v) ∷ m) c h = rw c.0 (ground (arith, contains_of_has_key j m c.1))

-- `entry(k).or_default().push(v)`: an occupied entry grows, a vacant one begins.
module _ {ℓ} {V : Type ℓ} where
  abbrev pub push_existing : String → V → List (String × List V) → List (String × List V)
  push_existing k v [] = []
  push_existing k v ((j, vs) ∷ m) =
      let rest = push_existing k v m in if str_eq j k then (j, vs ++ v ∷ []) ∷ m else (j, vs) ∷ rest

  unfoldable pub push : String → V → List (String × List V) → List (String × List V)
  push k v m = if has_key k m then push_existing k v m else insert_new k (v ∷ []) m

  -- The group of a key, empty where there is none.
  abbrev pub group : String → List (String × List V) → List V
  group k [] = []
  group k ((j, vs) ∷ m) = if str_eq j k then vs else group k m

  group-push_existing :
      (k j : String) (v : V) (m : List (String × List V))
      → has_key k m ≡ true
      → group j (push_existing k v m) ≡ (if str_eq k j then group j m ++ v ∷ [] else group j m)
  group-push_existing k j v [] h = absurd cc
  group-push_existing k j v ((i, vs) ∷ m) h =
      ground (arith, str_eq_iff k j, str_eq_iff i k, str_eq_iff i j, group-push_existing k j v m)

  group_of_absent : (k : String) (m : List (String × List V)) → has_key k m ≡ false → group k m ≡ []
  group_of_absent k [] h = refl
  group_of_absent k ((j, vs) ∷ m) h = ground (arith, group_of_absent k m)

  group-insert_new :
      (k j : String) (vs : List V) (m : List (String × List V))
      → has_key k m ≡ false
      → group j (insert_new k vs m) ≡ (if str_eq k j then vs else group j m)
  group-insert_new k j vs [] h = refl
  group-insert_new k j vs ((i, ws) ∷ m) h =
      ground (arith, str_eq_iff k j, str_eq_iff i k, str_eq_iff i j, group-insert_new k j vs m)

  pub group-push :
      (k j : String) (v : V) (m : List (String × List V))
      → group j (push k v m) ≡ (if str_eq k j then group j m ++ v ∷ [] else group j m)
  unfolding push
  group-push k j v m = elim (Bool-cases (has_key k m)) [
    | inl there ↦ rw there (group-push_existing k j v m there)
    | inr absent ↦ rw absent (
        ground (
          arith,
          group-insert_new k j (v ∷ []) m absent,
          group_of_absent k m absent,
          str_eq_iff k j,
        ))
  ]
