-- ===== src/Base/Traverse.antt =====
-- What a walk that stops at the first error gives when it comes to its end.
use Prim.Native.Nat.{suc}
use mathlib.Core.Path.{◌≡◌, refl, sym, ap, ◌∙◌, subst}
use mathlib.Core.List.{List, [], ◌∷◌}
use aws_net_hound.Base.Lists.{All, length}
use aws_net_hound.Base.Results.{err, map_ok, Result, ok, traverse, >>=-eq-ok}

pub ok_unique {ℓ κ} :
    {E : Type ℓ} {A : Type κ} {e : Result E A} {a b : A} → e ≡ ok a → e ≡ ok b → a ≡ b
ok_unique h k = cc

-- Inversion of `map`.
pub map_ok-eq-ok {ℓ κ μ} :
    {E : Type ℓ} {A : Type κ} {B : Type μ} (g : A → B) (r : Result E A) {b : B}
    → map_ok g r ≡ ok b
    → (a : A) × (r ≡ ok a) × (g a ≡ b)
map_ok-eq-ok g (ok a) h = (a, refl, ok_unique refl h)
map_ok-eq-ok g (err e) h = absurd cc

module _ {ℓ κ μ} {E : Type ℓ} {A : Type κ} {B : Type μ} (f : A → Result E B) where
  -- What every answer has, the answers of the walk have.
  pub traverse-All {ν} :
      (P : B → Type ν)
      → ((x : A) (y : B) → f x ≡ ok y → P y)
      → (xs : List A) {ys : List B} → traverse f xs ≡ ok ys
      → All P ys
  traverse-All P step [] h = subst (All P) (ok_unique refl h) tt
  traverse-All P step (x ∷ xs) h =
      let (y, first, rest) = >>=-eq-ok (f x) _ h in
      let (ys, others, last) = >>=-eq-ok (traverse f xs) _ rest in
      subst (All P) (ok_unique refl last) (step x y first, traverse-All P step xs others)

  -- The same, where the items are known to have a property.
  pub traverse-All_of {ν ξ} :
      {P : A → Type ν} (Q : B → Type ξ)
      → ((x : A) (y : B) → P x → f x ≡ ok y → Q y)
      → (xs : List A) {ys : List B} → All P xs
      → traverse f xs ≡ ok ys
      → All Q ys
  traverse-All_of Q step [] h e = subst (All Q) (ok_unique refl e) tt
  traverse-All_of Q step (x ∷ xs) h e =
      let (y, first, rest) = >>=-eq-ok (f x) _ e in
      let (ys, others, last) = >>=-eq-ok (traverse f xs) _ rest in
      subst (All Q) (ok_unique refl last) (step x y h.0 first, traverse-All_of Q step xs h.1 others)

  pub traverse-length : (xs : List A) {ys : List B} → traverse f xs ≡ ok ys → length ys ≡ length xs
  traverse-length [] h = ap length (sym (ok_unique refl h))
  traverse-length (x ∷ xs) h =
      let (y, first, rest) = >>=-eq-ok (f x) _ h in
      let (ys, others, last) = >>=-eq-ok (traverse f xs) _ rest in
      ap length (sym (ok_unique refl last)) ∙ ap suc (traverse-length xs others)
