-- ===== src/Base/First.antt =====
-- The first element that passes a test, with its index.
use mathlib.Core.List.{Perm, Permᴰ}
use mathlib.Core.Bool.{Bool, true, false, ◌||◌}
use mathlib.Core.Path.{◌≡◌, refl, ap, ◌∙◌}
use mathlib.Core.List.{List, [], ◌∷◌, ◌++◌}
use mathlib.Core.Logic.{◌⊎◌, inl, inr, ∥∥₁_elim}
use mathlib.Core.Option.{Option, none, some}
use Prim.Native.Nat.{ℕ, suc, ◌+◌}
use native.Mathlib.Omega.{arith}
use aws_net_hound.Base.Tests.{if◌then◌else◌, Bool-cases}
use aws_net_hound.Base.Lists.{length, any, All}

module _ {ℓ} {A : Type ℓ} (p : A → Bool) where
  -- The search counts from a given index.
  abbrev pub first_from : ℕ → List A → Option (ℕ × A)
  first_from i [] = none
  first_from i (x ∷ xs) = if p x then some (i, x) else first_from (suc i) xs

  -- `x` stands at index `i`, passes the test, and no earlier element does.
  pub record IsFirstAt (xs : List A) (i : ℕ) (x : A) : Type ℓ where
    pub before : List A
    pub after : List A
    pub split : xs ≡ before ++ x ∷ after
    pub place : i ≡ length before
    pub hit : p x ≡ true
    pub earlier : All (λ y. p y ≡ false) before

  first_from-cases :
      (i : ℕ) (xs : List A)
      → (All (λ y. p y ≡ false) xs × (first_from i xs ≡ none))
        ⊎ ((k : ℕ) × (x : A) × IsFirstAt xs k x × (first_from i xs ≡ some (i + k, x)))
  first_from-cases i [] = inl (tt, refl)
  first_from-cases i (x ∷ xs) = elim (Bool-cases (p x)) [
    | inl hit ↦ inr (
      0,
      x,
      record { before = []; after = xs; split = refl; place = refl; hit = hit; earlier = tt },
      rw hit (ap (λ (k : ℕ). some (k, x)) (omega arith)),
    )
    | inr miss ↦ elim (first_from-cases (suc i) xs) [
      | inl (none_hit, e) ↦ inl ((miss, none_hit), rw miss e)
      | inr (k, y, f, e) ↦ inr (
        suc k,
        y,
        record {
          before = x ∷ f.before;
          after = f.after;
          split = ap (◌∷◌ x) f.split;
          place = ap suc f.place;
          hit = f.hit;
          earlier = (miss, f.earlier);
        },
        rw miss (e ∙ ap (λ (k : ℕ). some (k, y)) (omega arith)),
      )
    ]
  ]

  pub first-cases :
      (xs : List A)
      → (All (λ y. p y ≡ false) xs × (first_from 0 xs ≡ none))
        ⊎ ((k : ℕ) × (x : A) × IsFirstAt xs k x × (first_from 0 xs ≡ some (k, x)))
  first-cases xs = elim (first_from-cases 0 xs) [
    | inl h ↦ inl h
    | inr (k, x, f, e) ↦ inr (k, x, f, e ∙ ap (λ (k : ℕ). some (k, x)) (omega arith))
  ]

  pub any-append : (xs ys : List A) → any p (xs ++ ys) ≡ (any p xs || any p ys)
  any-append [] ys = refl
  any-append (x ∷ xs) ys = ground (arith, any-append xs ys)

  any-permᴰ : {xs ys : List A} → Permᴰ xs ys → any p xs ≡ any p ys
  any-permᴰ Permᴰ.nil = refl
  any-permᴰ (Permᴰ.cons e h) = cc (e, any-permᴰ h)
  any-permᴰ (Permᴰ.swap {a} {b} {a'} {b'} {l} e f) = ground (arith, ap p e, ap p f)
  any-permᴰ (Permᴰ.trans h k) = any-permᴰ h ∙ any-permᴰ k

  Bool-set : IsSet Bool
  Bool-set = hlevel

  pub any-perm : {xs ys : List A} → Perm xs ys → any p xs ≡ any p ys
  any-perm h = ∥∥₁_elim h (Bool-set _ _) any-permᴰ
