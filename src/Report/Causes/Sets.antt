-- ===== src/Report/Causes/Sets.antt =====
-- Sets of ranks: membership, and when a collection repeats nothing.
use aws_net_hound.Base.{
  ℕ, ◌≤◌, ◌<◌, ◌≡◌, ◌↔◌, refl, Bool, true, false, ◌||◌, List, [], ◌∷◌, any, length, ltb, ◌==◌, suc,
  if◌then◌else◌, All, All-map, arith, Bool-cases, inl, inr,
}
use aws_net_hound.Report.Causes.{set_insert, to_set, same_set}

abbrev pub has : ℕ → List ℕ → Bool
has k s = any (λ j. j == k) s

abbrev pub IsDistinct : List ℕ → Type 0
IsDistinct [] = Unit
IsDistinct (k ∷ ks) = (has k ks ≡ false) × IsDistinct ks

abbrev pub IsAscending : List ℕ → Type 0
IsAscending [] = Unit
IsAscending (k ∷ ks) = All (λ j. k < j) ks × IsAscending ks

has-set_insert : (k j : ℕ) (s : List ℕ) → has k (set_insert j s) ≡ ((j == k) || has k s)
has-set_insert k j [] = refl
has-set_insert k j (i ∷ s) = ground (arith, has-set_insert k j s)

pub has-to_set : (k : ℕ) (ks : List ℕ) → has k (to_set ks) ≡ has k ks
has-to_set k [] = refl
has-to_set k (j ∷ ks) = ground (arith, has-set_insert k j (to_set ks), has-to_set k ks)

set_insert-All : (P : ℕ → Type 0) (j : ℕ) (s : List ℕ) → P j → All P s → All P (set_insert j s)
set_insert-All P j [] h k = (h, tt)
set_insert-All P j (i ∷ s) h k = elim (Bool-cases (j == i)) [
  | inl same ↦ rw same k
  | inr other ↦ elim (Bool-cases (ltb j i)) [
    | inl before ↦ rw (other, before) (h, k)
    | inr after ↦ rw (other, after) (k.0, set_insert-All P j s h k.1)
  ]
]

set_insert-IsAscending : (j : ℕ) (s : List ℕ) → IsAscending s → IsAscending (set_insert j s)
set_insert-IsAscending j [] h = (tt, tt)
set_insert-IsAscending j (i ∷ s) h = elim (Bool-cases (j == i)) [
  | inl same ↦ rw same h
  | inr other ↦ elim (Bool-cases (ltb j i)) [
    | inl before ↦
        rw (other, before) ((ground arith, All-map (λ l. j < l) (λ l lt. ground arith) s h.0), h)
    | inr after ↦
        rw (other, after)
          (set_insert-All (λ l. i < l) j s (ground arith) h.0, set_insert-IsAscending j s h.1)
  ]
]

pub to_set-IsAscending : (ks : List ℕ) → IsAscending (to_set ks)
to_set-IsAscending [] = tt
to_set-IsAscending (k ∷ ks) = set_insert-IsAscending k (to_set ks) (to_set-IsAscending ks)

has_of_All-lt : (k : ℕ) (s : List ℕ) → All (λ j. k < j) s → has k s ≡ false
has_of_All-lt k [] h = refl
has_of_All-lt k (j ∷ s) h = ground (arith, h.0, has_of_All-lt k s h.1)

has_below : (j k : ℕ) (s : List ℕ) → All (λ i. k < i) s → j ≤ k → has j s ≡ false
has_below j k [] h le = refl
has_below j k (i ∷ s) h le = ground (arith, h.0, has_below j k s h.1)

same_tails :
    (j k : ℕ) (s t : List ℕ) (m : ℕ)
    → j ≡ k
    → All (λ i. j < i) s
    → All (λ i. k < i) t
    → has m (j ∷ s) ≡ has m (k ∷ t)
    → has m s ≡ has m t
same_tails j k s t m same a b h = ground (arith, has_of_All-lt j s a, has_of_All-lt k t b)

-- Two ascending lists with the same members are the same.
pub same_set_of_has :
    (s t : List ℕ)
    → IsAscending s
    → IsAscending t
    → ((k : ℕ) → has k s ≡ has k t)
    → same_set s t ≡ true
same_set_of_has [] [] a b h = refl
same_set_of_has [] (k ∷ t) a b h = ground (arith, h k)
same_set_of_has (j ∷ s) [] a b h = ground (arith, h j)
same_set_of_has (j ∷ s) (k ∷ t) a b h =
    let same : j ≡ k = ground (arith, h j, h k, has_below j k t b.0, has_below k j s a.0) in
    let tails = λ (m : ℕ). same_tails j k s t m same a.0 b.0 (h m) in
    ground (arith, same, same_set_of_has s t a.1 b.1 tails)

pub has_of_same_set : (k : ℕ) (s t : List ℕ) → same_set s t ≡ true → has k s ≡ has k t
has_of_same_set k [] [] h = refl
has_of_same_set k [] (j ∷ t) h = ground arith
has_of_same_set k (i ∷ s) [] h = ground arith
has_of_same_set k (i ∷ s) (j ∷ t) h = ground (arith, has_of_same_set k s t)

length-set_insert :
    (k : ℕ) (s : List ℕ)
    → IsAscending s
    → length (set_insert k s) ≡ (if has k s then length s else suc (length s))
length-set_insert k [] a = refl
length-set_insert k (j ∷ s) a = ground (arith, length-set_insert k s a.1, has_below k j s a.0)

length-to_set_le : (ks : List ℕ) → length (to_set ks) ≤ length ks
length-to_set_le [] = omega arith
length-to_set_le (k ∷ ks) =
    ground (arith, length-to_set_le ks, length-set_insert k (to_set ks) (to_set-IsAscending ks))

-- A collection keeps its length exactly when nothing is repeated.
pub length-to_set_iff : (ks : List ℕ) → (length (to_set ks) ≡ length ks) ↔ IsDistinct ks
length-to_set_iff [] = ((λ h. tt), (λ h. refl))
length-to_set_iff (k ∷ ks) =
    let step = length-set_insert k (to_set ks) (to_set-IsAscending ks) in
    (
      (λ h. (
        ground (arith, step, length-to_set_le ks, has-to_set k ks),
        (length-to_set_iff ks).0 (ground (arith, step, length-to_set_le ks)),
      )),
      (λ d. ground (arith, step, d.0, has-to_set k ks, (length-to_set_iff ks).1 d.1)),
    )
