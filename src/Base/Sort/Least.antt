-- ===== src/Base/Sort/Least.antt =====
-- A search in a sorted list finds the element of the least key, the earliest of its key.
use Prim.Native.Nat.{ℕ, ◌≤◌, ◌<◌}
use mathlib.Core.Path.{◌≡◌, refl, ap, ◌∙◌}
use mathlib.Core.Bool.{Bool, true, false, ◌&&◌}
use mathlib.Core.List.{List, [], ◌∷◌, ◌++◌, Mem, mem-append_right, mem-cons_self}
use mathlib.Core.Logic.{◌⊎◌, inl, inr}
use mathlib.Core.Option.{none, some}
use mathlib.Core.HLevel.{Π_prop}
use native.Mathlib.Bridge.{le_prop}
use native.Mathlib.Omega.{arith}
use aws_net_hound.Base.Tests.{leb, if◌then◌else◌, Bool-cases, leb→le, le→leb}
use aws_net_hound.Base.Lists.{find?, filter, All, All-map, All-append, All-mem}
use aws_net_hound.Base.Sort.{insert_by_key, sort_by_key, IsSortedBy, pick, first_least}
use aws_net_hound.Base.Sort.Order.{sort_by_key-IsSortedBy}

module _ {ℓ} {A : Type ℓ} (key : A → ℕ) (p : A → Bool) where
  pick_of_le : (x : A) (ys : List A) → All (λ y. key x ≤ key y) ys → pick key x (find? p ys) ≡ x
  pick_of_le x [] h = refl
  pick_of_le x (y ∷ ys) h = ground (arith, pick_of_le x ys h.1)

  find?-insert_by_key :
      (x : A) (ys : List A)
      → IsSortedBy key ys
      → find? p (insert_by_key key x ys)
        ≡ (if p x then some (pick key x (find? p ys)) else find? p ys)
  unfolding insert_by_key
  find?-insert_by_key x [] s = refl
  find?-insert_by_key x (y ∷ ys) s = elim (Bool-cases (leb (key x) (key y))) [
    | inl le ↦
        rw le
          (ground (arith, pick_of_le x ys (All-map (λ z. key x ≤ key z) (λ z h. via le h) ys s.0)))
    | inr gt ↦ rw gt (ground (arith, find?-insert_by_key x ys s.1))
  ]
    where
      via : {c : ℕ} → leb (key x) (key y) ≡ true → key y ≤ c → key x ≤ c
      via le h = omega (arith, leb→le (key x) (key y) le)

  pub find?-sort_by_key : (xs : List A) → find? p (sort_by_key key xs) ≡ first_least key p xs
  unfolding sort_by_key
  find?-sort_by_key [] = refl
  find?-sort_by_key (x ∷ xs) =
      find?-insert_by_key x (sort_by_key key xs) (sort_by_key-IsSortedBy key xs)
      ∙ rw (find?-sort_by_key xs)

  abbrev pub Misses : A → Type 0
  Misses y = p y ≡ false

  -- `x` passes the test, no element that passes has a smaller key, and no earlier one has its key.
  pub record IsFirstLeast (xs : List A) (x : A) : Type ℓ where
    pub before : List A
    pub after : List A
    pub split : xs ≡ before ++ x ∷ after
    pub hit : p x ≡ true
    pub earlier : All (λ y. p y ≡ true → key x < key y) before
    pub later : All (λ y. p y ≡ true → key x ≤ key y) after

  Misses→lt : (k : ℕ) (xs : List A) → All Misses xs → All (λ y. p y ≡ true → k ≤ key y) xs
  Misses→lt k xs h = All-map (λ y. p y ≡ true → k ≤ key y) (λ y no_hit hit. cc) xs h

  IsFirstLeast-skip :
      (x : A) {xs : List A} {y : A}
      → (p x ≡ true → key y < key x)
      → IsFirstLeast xs y
      → IsFirstLeast (x ∷ xs) y
  IsFirstLeast-skip x h l = record {
    before = x ∷ l.before;
    after = l.after;
    split = ap (◌∷◌ x) l.split;
    hit = l.hit;
    earlier = (h, l.earlier);
    later = l.later;
  }

  pub IsFirstLeast-All :
      {xs : List A} {y : A} (k : ℕ)
      → k ≤ key y
      → IsFirstLeast xs y
      → All (λ z. p z ≡ true → k ≤ key z) xs
  IsFirstLeast-All {y = y} k h l = rw l.split (
      All-append (λ z. p z ≡ true → k ≤ key z) l.before (y ∷ l.after)
        (All-map (λ z. p z ≡ true → k ≤ key z) (λ z lt hit. from_lt (lt hit)) l.before l.earlier)
        (
          (λ _. h),
          All-map (λ z. p z ≡ true → k ≤ key z) (λ z le hit. from_le (le hit)) l.after l.later,
        ))
    where
      from_lt : {c : ℕ} → key y < c → k ≤ c
      from_lt lt = omega arith

      from_le : {c : ℕ} → key y ≤ c → k ≤ c
      from_le le = omega arith

  pub first_least-cases :
      (xs : List A)
      → (All Misses xs × (first_least key p xs ≡ none))
        ⊎ ((x : A) × IsFirstLeast xs x × (first_least key p xs ≡ some x))
  first_least-cases [] = inl (tt, refl)
  first_least-cases (x ∷ xs) = elim (Bool-cases (p x)) [
    | inl hit ↦ elim (first_least-cases xs) [
      | inl (none_hit, e) ↦ inr (
        x,
        record {
          before = [];
          after = xs;
          split = refl;
          hit = hit;
          earlier = tt;
          later = Misses→lt (key x) xs none_hit;
        },
        rw (hit, e),
      )
      | inr (y, l, e) ↦ elim (Bool-cases (leb (key x) (key y))) [
        | inl le ↦ inr (
          x,
          record {
            before = [];
            after = xs;
            split = refl;
            hit = hit;
            earlier = tt;
            later = IsFirstLeast-All (key x) (leb→le _ _ le) l;
          },
          rw (hit, e, le),
        )
        | inr gt ↦ inr (y, IsFirstLeast-skip x (λ _. ground arith) l, rw (hit, e, gt))
      ]
    ]
    | inr miss ↦ elim (first_least-cases xs) [
      | inl (none_hit, e) ↦ inl ((miss, none_hit), rw miss e)
      | inr (y, l, e) ↦ inr (y, IsFirstLeast-skip x (λ h. cc) l, rw miss e)
    ]
  ]

  pub IsFirstLeast-mem : {xs : List A} {x : A} → IsFirstLeast xs x → Mem x xs
  IsFirstLeast-mem {x = x} l = rw l.split (mem-append_right l.before mem-cons_self)

  -- No element that passes has a smaller key, wherever it stands.
  pub IsFirstLeast-le :
      {xs : List A} {x y : A} → IsFirstLeast xs x → Mem y xs → p y ≡ true → key x ≤ key y
  IsFirstLeast-le {xs = xs} {x = x} l m =
      All-mem (λ z. p z ≡ true → key x ≤ key z) (λ z. Π_prop (λ _. le_prop)) xs
        (IsFirstLeast-All (key x) (omega arith) l) m

  Bool-set : IsSet Bool
  Bool-set = hlevel

  pub Misses-mem : (xs : List A) {y : A} → All Misses xs → Mem y xs → p y ≡ false
  Misses-mem xs h m = All-mem Misses (λ z. Bool-set _ _) xs h m

  first_least-cons_of_le :
      (x : A) (xs : List A)
      → p x ≡ true
      → All (λ y. p y ≡ true → key x ≤ key y) xs
      → first_least key p (x ∷ xs) ≡ some x
  first_least-cons_of_le x xs hit later = elim (first_least-cases xs) [
    | inl (_, e) ↦ rw (hit, e)
    | inr (y, l, e) ↦
        let le : key x ≤ key y =
          All-mem (λ z. p z ≡ true → key x ≤ key z) (λ z. Π_prop (λ _. le_prop)) xs later
            (IsFirstLeast-mem l) l.hit in
        rw (hit, e, le→leb (key x) (key y) le)
  ]

  first_least-append :
      (before rest : List A) {x : A}
      → All (λ y. p y ≡ true → key x < key y) before
      → first_least key p rest ≡ some x
      → first_least key p (before ++ rest) ≡ some x
  first_least-append [] rest h e = e
  first_least-append (y ∷ before) rest {x} h e =
      ground (arith, first_least-append before rest h.1 e, h.0)

  -- The search finds the element that the record describes.
  pub first_least_of_IsFirstLeast :
      {xs : List A} {x : A} → IsFirstLeast xs x → first_least key p xs ≡ some x
  first_least_of_IsFirstLeast {x = x} l = rw l.split (
      first_least-append l.before (x ∷ l.after) l.earlier
        (first_least-cons_of_le x l.after l.hit l.later))

module _ {ℓ} {A : Type ℓ} (key : A → ℕ) (p q : A → Bool) where
  -- A filter before the search joins the test.
  pub first_least-filter :
      (xs : List A) → first_least key p (filter q xs) ≡ first_least key (λ x. q x && p x) xs
  first_least-filter [] = refl
  first_least-filter (x ∷ xs) = ground (arith, first_least-filter xs)
