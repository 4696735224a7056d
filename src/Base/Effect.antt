-- ===== src/Base/Effect.antt =====
-- An async method on a shared store: it fails or answers, and leaves a store either way.
use mathlib.Core.Path.{◌≡◌, refl, ap, ◌∙◌}
use mathlib.Core.Logic.{◌⊎◌, inl, inr}
use mathlib.Core.List.{List, [], ◌∷◌}
use aws_net_hound.Base.Results.{Result, ok, err}

abbrev pub Effect : Type 0 → Type 0 → Type 0 → Type 0
Effect Store E A = Store → Store × Result E A

module _ {Store E A B : Type 0} where
  -- `?` on the answer of an awaited call.
  abbrev pub resume : Store × Result E A → (A → Effect Store E B) → Store × Result E B
  resume (store, ok a) next = next a store
  resume (store, err e) next = (store, err e)

  pub resume-cong :
      (answer : Store × Result E A) (f g : A → Effect Store E B)
      → ((a : A) (store : Store) → f a store ≡ g a store)
      → resume answer f ≡ resume answer g
  resume-cong (store, ok a) f g h = h a store
  resume-cong (store, err e) f g h = refl

  pub resume-cases :
      (first : Store × Result E A) (next : A → Effect Store E B)
      → ((store : Store) × (e : E) × (first ≡ (store, err e))
          × (resume first next ≡ (store, err e)))
        ⊎ ((store : Store) × (a : A) × (first ≡ (store, ok a)) × (resume first next ≡ next a store))
  resume-cases (store, ok a) next = inr (store, a, refl, refl)
  resume-cases (store, err e) next = inl (store, e, refl, refl)

  -- What the first call and the later ones leave alone, both leave alone.
  pub resume-keeps {ℓ} :
      {V : Type ℓ} (view : Store → V) {before : V} (first : Store × Result E A)
      (next : A → Effect Store E B)
      → view first.0 ≡ before
      → ((a : A) (store : Store) → view (next a store).0 ≡ view store)
      → view (resume first next).0 ≡ before
  resume-keeps view (store, ok a) next h keep = keep a store ∙ h
  resume-keeps view (store, err e) next h keep = h

  infixl 5 ◌>>>◌
  abbrev pub ◌>>>◌ : Effect Store E A → (A → Effect Store E B) → Effect Store E B
  (first >>> next) store = resume (first store) next

  pub resume-eq-ok :
      (first : Store × Result E A) (next : A → Effect Store E B) {last : Store} {answer : B}
      → resume first next ≡ (last, ok answer)
      → (store : Store) × (a : A) × (first ≡ (store, ok a)) × (next a store ≡ (last, ok answer))
  resume-eq-ok (store, ok a) next e = (store, a, refl, e)
  resume-eq-ok (store, err f) next e = absurd cc

module _ {Store E A : Type 0} where
  -- A result that takes no call.
  abbrev pub lift : Result E A → Effect Store E A
  lift r store = (store, r)

  pub pair_parts :
      {first second : Store} {r s : Result E A}
      → ◌≡◌ {A = Store × Result E A} (first, r) (second, s)
      → (first ≡ second) × (r ≡ s)
  pair_parts e = (ap (λ (p : Store × Result E A). p.0) e, ap (λ (p : Store × Result E A). p.1) e)

  -- A call whose failure is wrapped.
  abbrev pub wrap_result : {F : Type 0} → (E → F) → Store × Result E A → Store × Result F A
  wrap_result f (store, ok a) = (store, ok a)
  wrap_result f (store, err e) = (store, err (f e))

  pub wrap_result-eq-ok :
      {F : Type 0} (f : E → F) (r : Store × Result E A) {store : Store} {a : A}
      → wrap_result f r ≡ (store, ok a)
      → r ≡ (store, ok a)
  wrap_result-eq-ok f (store, ok a) e = cc
  wrap_result-eq-ok f (store, err g) e = absurd cc

  -- A loop of calls that stops at the first failure.
  abbrev pub for_each : (A → Effect Store E (Unit {0})) → List A → Effect Store E (Unit {0})
  for_each body [] store = (store, ok tt)
  for_each body (x ∷ xs) store = resume (body x store) (λ _. for_each body xs)

infixr 4 ◌>>◌
abbrev pub ◌>>◌ :
    {Store E : Type 0}
    → Effect Store E (Unit {0})
    → Effect Store E (Unit {0})
    → Effect Store E (Unit {0})
(first >> second) store = resume (first store) (λ _. second)

module _ {Store E : Type 0} where
  pub resume-unit :
      (answer : Store × Result E (Unit {0}))
      → answer ≡ resume answer (λ _. λ (store : Store). (store, ok tt))
  resume-unit (store, ok t) = refl
  resume-unit (store, err e) = refl
