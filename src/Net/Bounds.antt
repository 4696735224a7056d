-- ===== src/Net/Bounds.antt =====
-- The numbers that the standard library's `str::parse::<u32>` gives.
use aws_net_hound.Base.{
  ◌≡◌, ℕ, ◌<◌, List, [], ◌∷◌, Option, none, some, Bool-cases, inl, inr, ◌==◌, arith, length, suc,
}
use aws_net_hound.Net.Reader.{scan_digits}
use aws_net_hound.Net.{within_u32, digits_u32, parse_u32}

within_u32-lt : (o : Option (ℕ × ℕ × List ℕ)) (n : ℕ) → within_u32 o ≡ some n → n < 4294967296
within_u32-lt none n h = absurd cc
within_u32-lt (some (_, m, [])) n h = ground arith
within_u32-lt (some (_, m, c ∷ s)) n h = absurd cc

digits_u32-lt : (s : List ℕ) (n : ℕ) → digits_u32 s ≡ some n → n < 4294967296
digits_u32-lt [] n h = absurd cc
digits_u32-lt (c ∷ s) n h = within_u32-lt (scan_digits 10 (suc (length s)) 0 0 (c ∷ s)) n h

pub parse_u32-lt : (s : List ℕ) (n : ℕ) → parse_u32 s ≡ some n → n < 4294967296
unfolding parse_u32
parse_u32-lt [] n h = absurd cc
parse_u32-lt (c ∷ s) n h = elim (Bool-cases (c == b'+')) [
  | inl plus ↦ digits_u32-lt s n (rw plus at h)
  | inr other ↦ digits_u32-lt (c ∷ s) n (rw other at h)
]
