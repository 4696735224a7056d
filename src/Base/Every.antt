-- ===== src/Base/Every.antt =====
-- A property of every element, through the iterator adaptors.
use native.Mathlib.Omega.{arith}
use Prim.Native.Nat.{suc}
use Prim.Native.String.{String}
use mathlib.Core.Path.{◌≡◌, refl, sym, ap, ◌∙◌, subst}
use mathlib.Core.Logic.{inl, inr}
use aws_net_hound.Base.Tests.{Bool-cases, if◌then◌else◌, str_eq_iff}
use mathlib.Core.Bool.{Bool, true}
use mathlib.Core.List.{List, [], ◌∷◌, ◌++◌, map, Mem, mem-cons_self, mem-cons_of_mem}
use mathlib.Core.Option.{Option, none, some}
use aws_net_hound.Base.Lists.{
  length, contains, filter, find?, All, All-append, All-map, flat_map, concat, zip, present,
}

pub some_unique {ℓ} : {A : Type ℓ} {e : Option A} {a b : A} → e ≡ some a → e ≡ some b → a ≡ b
some_unique h k = cc

module _ {ℓ κ} {A : Type ℓ} (P : A → Type κ) where
  pub All-split : (xs ys : List A) → All P (xs ++ ys) → All P xs × All P ys
  All-split [] ys h = (tt, h)
  All-split (x ∷ xs) ys h = let (k, l) = All-split xs ys h.1 in ((h.0, k), l)

  pub All-concat : (xss : List (List A)) → All (All P) xss → All P (concat xss)
  All-concat [] h = tt
  All-concat (xs ∷ xss) h = All-append P xs (concat xss) h.0 (All-concat xss h.1)

  pub All-concat_elim : (xss : List (List A)) → All P (concat xss) → All (All P) xss
  All-concat_elim [] h = tt
  All-concat_elim (xs ∷ xss) h =
      let (k, l) = All-split xs (concat xss) h in (k, All-concat_elim xss l)

  pub All-intro : ((x : A) → P x) → (xs : List A) → All P xs
  All-intro f [] = tt
  All-intro f (x ∷ xs) = (f x, All-intro f xs)

  pub All-both {μ} : (Q : A → Type μ) (xs : List A) → All P xs → All Q xs → All (λ x. P x × Q x) xs
  All-both Q [] h k = tt
  All-both Q (x ∷ xs) h k = ((h.0, k.0), All-both Q xs h.1 k.1)

  pub All-present :
      (xs : List (Option A)) → All (λ o. (x : A) → o ≡ some x → P x) xs → All P (present xs)
  All-present [] h = tt
  All-present (none ∷ xs) h = All-present xs h.1
  All-present (some x ∷ xs) h = (h.0 x refl, All-present xs h.1)

  pub All-find : (p : A → Bool) (xs : List A) (x : A) → All P xs → find? p xs ≡ some x → P x
  All-find p [] x h e = absurd cc
  All-find p (y ∷ xs) x h e = elim (Bool-cases (p y)) [
    | inl hit ↦
        subst P (some_unique refl (sym (ap (λ b. if b then some y else find? p xs) hit) ∙ e)) h.0
    | inr miss ↦ All-find p xs x h.1 (sym (ap (λ b. if b then some y else find? p xs) miss) ∙ e)
  ]

  pub All-present_elim :
      (xs : List (Option A)) → All P (present xs) → All (λ o. (x : A) → o ≡ some x → P x) xs
  All-present_elim [] h = tt
  All-present_elim (none ∷ xs) h = ((λ x e. absurd cc), All-present_elim xs h)
  All-present_elim (some y ∷ xs) h =
      ((λ x e. subst P (some_unique refl e) h.0), All-present_elim xs h.1)

  pub All-filter : (p : A → Bool) (xs : List A) → All P xs → All P (filter p xs)
  All-filter p [] h = tt
  All-filter p (x ∷ xs) h = elim (Bool-cases (p x)) [
    | inl hit ↦ rw hit (h.0, All-filter p xs h.1)
    | inr miss ↦ rw miss (All-filter p xs h.1)
  ]

  pub All-filter_elim :
      (p : A → Bool) (xs : List A) → All P (filter p xs) → All (λ x. p x ≡ true → P x) xs
  All-filter_elim p [] h = tt
  All-filter_elim p (x ∷ xs) h = elim (Bool-cases (p x)) [
    | inl hit ↦
        let k = subst (All P) (ap (λ b. if b then x ∷ filter p xs else filter p xs) hit) h in
        ((λ _. k.0), All-filter_elim p xs k.1)
    | inr miss ↦ (
      (λ hit. absurd cc),
      All-filter_elim p xs
          (subst (All P) (ap (λ b. if b then x ∷ filter p xs else filter p xs) miss) h),
    )
  ]

  module _ {ν} {B : Type ν} (f : B → List A) where
    pub All-flat_map : (xs : List B) → All (λ x. All P (f x)) xs → All P (flat_map f xs)
    All-flat_map [] h = tt
    All-flat_map (x ∷ xs) h = All-append P (f x) (flat_map f xs) h.0 (All-flat_map xs h.1)

    pub All-flat_map_elim : (xs : List B) → All P (flat_map f xs) → All (λ x. All P (f x)) xs
    All-flat_map_elim [] h = tt
    All-flat_map_elim (x ∷ xs) h =
        let (k, l) = All-split (f x) (flat_map f xs) h in (k, All-flat_map_elim xs l)

  module _ {ν} {B : Type ν} (f : B → A) where
    pub All-map_intro : (xs : List B) → All (λ x. P (f x)) xs → All P (map f xs)
    All-map_intro [] h = tt
    All-map_intro (x ∷ xs) h = (h.0, All-map_intro xs h.1)

    pub All-map_elim : (xs : List B) → All P (map f xs) → All (λ x. P (f x)) xs
    All-map_elim [] h = tt
    All-map_elim (x ∷ xs) h = (h.0, All-map_elim xs h.1)

  module _ {ν} {B : Type ν} where
    pub All-zip_left : (xs : List A) (ys : List B) → All P xs → All (λ p. P p.0) (zip xs ys)
    All-zip_left [] ys h = tt
    All-zip_left (x ∷ xs) [] h = tt
    All-zip_left (x ∷ xs) (y ∷ ys) h = (h.0, All-zip_left xs ys h.1)

    pub All-zip_right : (ys : List B) (xs : List A) → All P xs → All (λ p. P p.1) (zip ys xs)
    All-zip_right [] xs h = tt
    All-zip_right (y ∷ ys) [] h = tt
    All-zip_right (y ∷ ys) (x ∷ xs) h = (h.0, All-zip_right ys xs h.1)

    pub All-zip_elim :
        (ys : List B) (xs : List A)
        → length ys ≡ length xs
        → All (λ p. P p.1) (zip ys xs)
        → All P xs
    All-zip_elim ys [] e h = tt
    All-zip_elim [] (x ∷ xs) e h = absurd (omega (arith, e))
    All-zip_elim (y ∷ ys) (x ∷ xs) e h = (h.0, All-zip_elim ys xs (omega (arith, e)) h.1)

pub All-mem_self {ℓ} : {A : Type ℓ} (xs : List A) → All (λ x. Mem x xs) xs
All-mem_self [] = tt
All-mem_self (x ∷ xs) = (mem-cons_self, All-map _ (λ y h. mem-cons_of_mem x h) xs (All-mem_self xs))

pub length-map {ℓ κ} :
    {A : Type ℓ} {B : Type κ} (f : A → B) (xs : List A) → length (map f xs) ≡ length xs
length-map f [] = refl
length-map f (x ∷ xs) = ap suc (length-map f xs)

-- The id of each element is among the ids.
pub contains-own {ℓ} :
    {A : Type ℓ} (id : A → String) (xs : List A) → All (λ x. contains (map id xs) (id x) ≡ true) xs
contains-own id [] = tt
contains-own id (x ∷ xs) = (
  ground (arith, str_eq_iff (id x) (id x)),
  All-map _ (λ y h. ground (arith, h)) xs (contains-own id xs),
)
