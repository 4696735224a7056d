-- ===== src/Base/Sort/Order.antt =====
-- The sort gives an ascending list that holds the same elements.
use Prim.Native.Nat.{ℕ, ◌≤◌, suc}
use mathlib.Core.Path.{◌≡◌, refl}
use mathlib.Core.List.Perm
use mathlib.Core.List.{List, [], ◌∷◌, Perm}
use mathlib.Core.Logic.{inl, inr}
use native.Mathlib.Omega.{arith}
use aws_net_hound.Base.Tests.{leb, leb→le, le→leb, Bool-cases}
use aws_net_hound.Base.Lists.{All, All-map, length}
use aws_net_hound.Base.Sort.{insert_by_key, sort_by_key, IsSortedBy}

module _ {ℓ} {A : Type ℓ} (key : A → ℕ) where
  insert_by_key-All {κ} :
      (P : A → Type κ) (x : A) (ys : List A) → P x → All P ys → All P (insert_by_key key x ys)
  unfolding insert_by_key
  insert_by_key-All P x [] h k = (h, tt)
  insert_by_key-All P x (y ∷ ys) h k = elim (Bool-cases (leb (key x) (key y))) [
    | inl le ↦ rw le (h, k)
    | inr gt ↦ rw gt (k.0, insert_by_key-All P x ys h k.1)
  ]

  pub insert_by_key-IsSortedBy :
      (x : A) (ys : List A) → IsSortedBy key ys → IsSortedBy key (insert_by_key key x ys)
  unfolding insert_by_key
  insert_by_key-IsSortedBy x [] s = (tt, tt)
  insert_by_key-IsSortedBy x (y ∷ ys) s = elim (Bool-cases (leb (key x) (key y))) [
    | inl le ↦ rw le (
      (leb→le _ _ le, All-map (λ z. key x ≤ key z) (λ z h. le_trans' (leb→le _ _ le) h) ys s.0),
      s,
    )
    | inr gt ↦ rw gt (
      insert_by_key-All (λ z. key y ≤ key z) x ys (ground arith) s.0,
      insert_by_key-IsSortedBy x ys s.1,
    )
  ]
    where
      le_trans' : {a b c : ℕ} → a ≤ b → b ≤ c → a ≤ c
      le_trans' p q = omega arith

  pub sort_by_key-IsSortedBy : (xs : List A) → IsSortedBy key (sort_by_key key xs)
  unfolding sort_by_key
  sort_by_key-IsSortedBy [] = tt
  sort_by_key-IsSortedBy (x ∷ xs) =
      insert_by_key-IsSortedBy x (sort_by_key key xs) (sort_by_key-IsSortedBy xs)

  insert_by_key-perm : (x : A) (ys : List A) → Perm (insert_by_key key x ys) (x ∷ ys)
  unfolding insert_by_key
  insert_by_key-perm x [] = Perm.rfl
  insert_by_key-perm x (y ∷ ys) = elim (Bool-cases (leb (key x) (key y))) [
    | inl le ↦ rw le Perm.rfl
    | inr gt ↦ rw gt (Perm.trans (Perm.cons y (insert_by_key-perm x ys)) (Perm.swap x y ys))
  ]

  pub sort_by_key-perm : (xs : List A) → Perm (sort_by_key key xs) xs
  unfolding sort_by_key
  sort_by_key-perm [] = Perm.rfl
  sort_by_key-perm (x ∷ xs) =
      Perm.trans (insert_by_key-perm x (sort_by_key key xs)) (Perm.cons x (sort_by_key-perm xs))

  -- A list that ascends already is left as it is.
  insert_by_key_of_le :
      (x : A) (ys : List A) → All (λ y. key x ≤ key y) ys → insert_by_key key x ys ≡ x ∷ ys
  unfolding insert_by_key
  insert_by_key_of_le x [] h = refl
  insert_by_key_of_le x (y ∷ ys) h = rw (le→leb _ _ h.0)

  pub sort_by_key_of_IsSortedBy : (xs : List A) → IsSortedBy key xs → sort_by_key key xs ≡ xs
  unfolding sort_by_key
  sort_by_key_of_IsSortedBy [] s = refl
  sort_by_key_of_IsSortedBy (x ∷ xs) s =
      rw (sort_by_key_of_IsSortedBy xs s.1) (insert_by_key_of_le x xs s.0)

  pub sort_by_key-All {κ} : (P : A → Type κ) (xs : List A) → All P xs → All P (sort_by_key key xs)
  unfolding sort_by_key
  sort_by_key-All P [] h = tt
  sort_by_key-All P (x ∷ xs) h =
      insert_by_key-All P x (sort_by_key key xs) h.0 (sort_by_key-All P xs h.1)

  insert_by_key-length : (x : A) (ys : List A) → length (insert_by_key key x ys) ≡ suc (length ys)
  unfolding insert_by_key
  insert_by_key-length x [] = refl
  insert_by_key-length x (y ∷ ys) = ground (arith, insert_by_key-length x ys)

  pub sort_by_key-length : (xs : List A) → length (sort_by_key key xs) ≡ length xs
  unfolding sort_by_key
  sort_by_key-length [] = refl
  sort_by_key-length (x ∷ xs) =
      omega (arith, insert_by_key-length x (sort_by_key key xs), sort_by_key-length xs)
