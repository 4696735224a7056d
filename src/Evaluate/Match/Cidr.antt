-- ===== src/Evaluate/Match/Cidr.antt =====
-- crates/core/src/evaluate/mod.rs: proofs about `cidr_contains`.
use Prim.Native.Nat.{bit_and}
use native.Mathlib.Nat.{div-eq_of_lt, sub-zero}
use aws_net_hound.Base.{
  ℕ, zero, suc, sym, ap, ◌∙◌, ◌+◌, ◌-◌, ◌/◌, ◌^◌, ◌≤◌, ◌<◌, ◌≡◌, ◌↔◌, inl, inr, some, String, true,
  false, ◌==◌, ltb, ltb→lt, Bool-cases, ==_iff, arith,
}
use aws_net_hound.Base.Bits.{bit_and-zero, bit_and-prefix_iff}
use aws_net_hound.Net.{IpAddr, v4, v6}
use aws_net_hound.Evaluate.Match.{
  prefix_mask, masked_eq, network_contains, parse_cidr, cidr_contains,
}

-- The highest `prefix_len` bits of a word of `width` bits.
abbrev pub high_bits : ℕ → ℕ → ℕ → ℕ
high_bits width prefix_len x = x / 2 ^ (width - prefix_len)

mask_iff :
    (width p x y : ℕ)
    → p ≤ width
    → x < 2 ^ width
    → y < 2 ^ width
    → (bit_and x (prefix_mask width p) ≡ bit_and y (prefix_mask width p))
      ↔ (high_bits width p x ≡ high_bits width p y)
mask_iff width zero x y h hx hy = (
  (λ _. rw sub-zero (div-eq_of_lt hx ∙ sym (div-eq_of_lt hy))),
  (λ _. bit_and-zero x ∙ sym (bit_and-zero y)),
)
mask_iff width (suc p) x y h hx hy =
    let back : suc p + (width - suc p) ≡ width = omega arith in
    let nonzero : (suc p == 0) ≡ false = ground arith in
    rw nonzero
      (rw back at (bit_and-prefix_iff (suc p) (width - suc p) x y (rw back hx) (rw back hy)))

-- One arm of the code holds of the words that share their highest bits.
masked_eq_iff :
    (width p x y : ℕ)
    → x < 2 ^ width
    → y < 2 ^ width
    → (masked_eq width p x y ≡ some true)
      ↔ ((p ≤ width) × (high_bits width p x ≡ high_bits width p y))
unfolding masked_eq
masked_eq_iff width p x y hx hy = elim (Bool-cases (ltb width p)) [
  | inl long ↦ rw long ((λ e. cc), (λ e. absurd (omega (arith, ltb→lt width p long))))
  | inr short ↦
      let le : p ≤ width = ground arith in
      rw short (
        (λ e. (le, (mask_iff width p x y le hx hy).0 ((==_iff _ _).0 (cc)))),
        (λ e. ap some ((==_iff _ _).1 ((mask_iff width p x y le hx hy).1 e.1))),
      )
]

-- An address fits its word.
abbrev pub InRange : IpAddr → Type 0
InRange (v4 n) = n < 2 ^ 32
InRange (v6 n) = n < 2 ^ 128

-- The address lies in the block: the same family, and the same leading bits.
abbrev pub Contains : IpAddr → ℕ → IpAddr → Type 0
Contains (v4 n) p (v4 a) = (p ≤ 32) × (high_bits 32 p n ≡ high_bits 32 p a)
Contains (v6 n) p (v6 a) = (p ≤ 128) × (high_bits 128 p n ≡ high_bits 128 p a)
Contains _ p _ = ⊥

network_contains_iff :
    (network : IpAddr) (p : ℕ) (address : IpAddr)
    → InRange network
    → InRange address
    → (network_contains network p address ≡ some true) ↔ Contains network p address
unfolding network_contains
network_contains_iff (v4 n) p (v4 a) hn ha = masked_eq_iff 32 p n a hn ha
network_contains_iff (v6 n) p (v6 a) hn ha = masked_eq_iff 128 p n a hn ha
network_contains_iff (v4 n) p (v6 a) hn ha = ((λ e. cc), (λ e. absurd e))
network_contains_iff (v6 n) p (v4 a) hn ha = ((λ e. cc), (λ e. absurd e))

-- For a text that parses as a network and a prefix length, `cidr_contains` answers yes exactly for
-- the addresses of the network's family that share its first `prefix_len` bits, the prefix length
-- being at most the address width.
pub cidr_contains_iff :
    (text : String) (network : IpAddr) (p : ℕ) (address : IpAddr)
    → parse_cidr text ≡ some (network, p)
    → InRange network
    → InRange address
    → (cidr_contains text address ≡ some true) ↔ Contains network p address
unfolding cidr_contains
cidr_contains_iff text network p address parsed hn ha =
    rw (parsed, cidr_contains) (network_contains_iff network p address hn ha)
