-- ===== src/Base/Bits.antt =====
-- `&` with a mask whose low bits are zero, on unsigned words of any width.
use Prim.Native.Nat.{
  ℕ, zero, suc, ◌+◌, ◌-◌, ◌*◌, ◌/◌, ◌%◌, ◌^◌, ◌≤◌, ◌<◌, min, bit_and, digits, bit_and-bitwise,
}
use mathlib.Core.Path.{◌≡◌, refl, sym, ap, ◌∙◌, ◌≡⟨◌⟩◌, ◌∎}
use mathlib.Core.Logic.{◌↔◌}
use native.Mathlib.Nat.{
  div-one, div-div-eq-div-mul, pow-succ', one-le-pow, mul-add-mod_self_right, mod-eq_of_lt,
  zero-add, div-lt_iff_lt-mul, mul-div_cancel,
}
use native.Mathlib.Omega.{arith}

-- The native operation goes through the digits of its first number, for as many rounds as that
-- number is large; further rounds change nothing.
abbrev walk : ℕ → ℕ → ℕ → ℕ
walk rounds a b = digits (λ _. 0) min rounds a b

walk_enough : (m n a b : ℕ) → a ≤ m → a ≤ n → walk m a b ≡ walk n a b
walk_enough zero zero a b h k = refl
walk_enough zero (suc n) zero b h k = refl
walk_enough (suc m) zero zero b h k = refl
walk_enough (suc m) (suc n) zero b h k = refl
walk_enough zero n (suc a) b h k = absurd (omega arith)
walk_enough (suc m) zero (suc a) b h k = absurd (omega arith)
walk_enough (suc m) (suc n) (suc a) b h k =
    omega (arith, walk_enough m n (suc a / 2) (b / 2) (omega arith) (omega arith))

and_halves : (a b : ℕ) → bit_and a b ≡ bit_and (a / 2) (b / 2) * 2 + min (a % 2) (b % 2)
and_halves zero b = omega (arith, bit_and-bitwise 0 b, bit_and-bitwise 0 (b / 2))
and_halves (suc a) b = omega (
  arith,
  bit_and-bitwise (suc a) b,
  bit_and-bitwise (suc a / 2) (b / 2),
  walk_enough a (suc a / 2) (suc a / 2) (b / 2) (omega arith) (omega arith),
)

times_one : (m : ℕ) → m * 1 ≡ m
times_one m = omega arith

-- The lowest `k` bits of the mask are zero.
and_shifted : (k x m : ℕ) → bit_and x (m * 2 ^ k) ≡ bit_and (x / 2 ^ k) m * 2 ^ k
and_shifted zero x m = rw (times_one m, div-one x) (omega (arith, times_one (bit_and x m)))
and_shifted (suc k) x m =
    let halved : m * 2 ^ suc k / 2 ≡ m * 2 ^ k =
      omega (arith, ap (λ (t : ℕ). m * t) (pow-succ' 2 k)) in
    let even : m * 2 ^ suc k % 2 ≡ 0 = omega (arith, ap (λ (t : ℕ). m * t) (pow-succ' 2 k)) in
    let shifted : x / 2 ^ suc k ≡ x / 2 / 2 ^ k =
      ap (λ (t : ℕ). x / t) (pow-succ' 2 k) ∙ sym (div-div-eq-div-mul x 2 (2 ^ k)) in
    and_halves x (m * 2 ^ suc k)
    ∙ rw (halved, even, shifted, and_shifted k (x / 2) m)
        (omega (arith, ap (λ (t : ℕ). bit_and (x / 2 / 2 ^ k) m * t) (pow-succ' 2 k)))

zero_mask : (rounds x : ℕ) → x ≤ rounds → bit_and x 0 ≡ 0
zero_mask rounds zero h = refl
zero_mask zero (suc x) h = absurd (omega arith)
zero_mask (suc rounds) (suc x) h =
    omega (arith, and_halves (suc x) 0, zero_mask rounds (suc x / 2) (omega arith))

pub bit_and-zero : (x : ℕ) → bit_and x 0 ≡ 0
bit_and-zero x = zero_mask x x (omega arith)

-- All of the lowest `p` bits of the mask are one.
and_ones : (p y : ℕ) → y < 2 ^ p → bit_and y (2 ^ p - 1) ≡ y
and_ones zero zero h = refl
and_ones zero (suc y) h = absurd (omega arith)
and_ones (suc p) y h =
    let pos : 1 ≤ 2 ^ p = one-le-pow p 2 (omega arith) in
    let halved : (2 ^ suc p - 1) / 2 ≡ 2 ^ p - 1 = omega (arith, pow-succ' 2 p) in
    let odd : (2 ^ suc p - 1) % 2 ≡ 1 = omega (arith, pow-succ' 2 p) in
    and_halves y (2 ^ suc p - 1)
    ∙ rw (halved, odd, and_ones p (y / 2) (omega (arith, pow-succ' 2 p))) (omega arith)

pow-add : (p k : ℕ) → 2 ^ (p + k) ≡ 2 ^ p * 2 ^ k
pow-add zero k = ap (λ (t : ℕ). 2 ^ t) (zero-add k) ∙ omega arith
pow-add (suc p) k =
    2 ^ (suc p + k)
    ≡⟨ ap (λ (t : ℕ). 2 ^ t) (omega arith) ⟩ 2 ^ suc (p + k)
    ≡⟨ omega (arith, pow-succ' 2 (p + k), pow-add p k) ⟩ 2 * (2 ^ p * 2 ^ k)
    ≡⟨ omega (arith, ap (λ (t : ℕ). t * 2 ^ k) (pow-succ' 2 p)) ⟩ 2 ^ suc p * 2 ^ k ∎

shl_ones : (P K : ℕ) → 0 < P → 0 < K → (P * K - 1) * K % (P * K) ≡ (P - 1) * K
shl_ones zero K h k = absurd (omega arith)
shl_ones (suc P) zero h k = absurd (omega arith)
shl_ones (suc P) (suc K) h k =
    let less : suc P * suc K - 1 ≡ P * K + P + K = omega arith in
    let regroup : (P * K + P + K) * suc K ≡ K * (suc P * suc K) + P * suc K = omega arith in
    let below : P * suc K < suc P * suc K = omega arith in
    let back : (suc P - 1) * suc K ≡ P * suc K = ap (λ (t : ℕ). t * suc K) (omega arith) in
    rw (less, regroup, back)
      (mul-add-mod_self_right K (suc P * suc K) (P * suc K) ∙ mod-eq_of_lt below)

-- Under the mask `MAX << k` of `p + k` bits, what is left of a word is its highest `p` bits.
pub bit_and-prefix :
    (p k x : ℕ)
    → x < 2 ^ (p + k)
    → bit_and x ((2 ^ (p + k) - 1) * 2 ^ k % 2 ^ (p + k)) ≡ x / 2 ^ k * 2 ^ k
bit_and-prefix p k x h =
    let one-le-P : 1 ≤ 2 ^ p = one-le-pow p 2 (omega arith) in
    let one-le-K : 1 ≤ 2 ^ k = one-le-pow k 2 (omega arith) in
    let top : x / 2 ^ k < 2 ^ p = (div-lt_iff_lt-mul one-le-K).1 (rw pow-add at h) in
    rw (
      pow-add p k,
      shl_ones (2 ^ p) (2 ^ k) one-le-P one-le-K,
      and_shifted k x (2 ^ p - 1),
      and_ones p (x / 2 ^ k) top,
    )

-- So two words agree under the mask exactly when their highest `p` bits do.
pub bit_and-prefix_iff :
    (p k x y : ℕ)
    → x < 2 ^ (p + k)
    → y < 2 ^ (p + k)
    → (bit_and x ((2 ^ (p + k) - 1) * 2 ^ k % 2 ^ (p + k))
        ≡ bit_and y ((2 ^ (p + k) - 1) * 2 ^ k % 2 ^ (p + k)))
      ↔ (x / 2 ^ k ≡ y / 2 ^ k)
bit_and-prefix_iff p k x y hx hy =
    rw (bit_and-prefix p k x hx, bit_and-prefix p k y hy)
      (
        (λ e.
            let pos : 0 < 2 ^ k = one-le-pow k 2 (omega arith) in
            sym (mul-div_cancel (x / 2 ^ k) pos)
            ∙ ap (λ (t : ℕ). t / 2 ^ k) e
            ∙ mul-div_cancel (y / 2 ^ k) pos),
        (λ e. ap (λ (t : ℕ). t * 2 ^ k) e),
      )
