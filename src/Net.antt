-- ===== src/Net.antt =====
-- `std::net::IpAddr` and the parsers of the standard library that a CIDR string goes through.
-- A text is walked as its code points: the parsers accept ASCII only, and refuse a character above
-- it as they refuse each byte of its encoding.
pub mod Reader
pub mod Bounds
mod Tests
pub use aws_net_hound.Base.{codes}
use aws_net_hound.Base.{
  ℕ, suc, ◌+◌, ◌*◌, String, Bool, Option, none, some, List, [], ◌∷◌, length, ltb, ◌==◌,
  if◌then◌else◌,
}
use native.Mathlib.Decide.{ℕ_discrete}
use aws_net_hound.Net.Reader.{Parser, orelse, read_ipv4_addr, read_ipv6_addr, scan_digits}

-- An address is the number that `u32::from` or `u128::from` gives.
pub data IpAddr : Type 0 where
  v4 : ℕ → IpAddr
  v6 : ℕ → IpAddr

pub IpAddr-discrete : Discrete IpAddr
IpAddr-discrete = hlevel ℕ_discrete

-- `Parser::parse_with`: the whole input has to be read.
abbrev whole {ℓ} : {A : Type ℓ} → Option (A × List ℕ) → Option A
whole none = none
whole (some (a, [])) = some a
whole (some (a, _ ∷ _)) = none

abbrev read_v4 : Parser IpAddr
read_v4 s = elim (read_ipv4_addr s) [ none ↦ none | some (n, r) ↦ some (v4 n, r) ]

abbrev read_v6 : Parser IpAddr
read_v6 s = elim (read_ipv6_addr s) [ none ↦ none | some (n, r) ↦ some (v6 n, r) ]

-- `str::parse::<IpAddr>`.
unfoldable pub parse_ip_addr : List ℕ → Option IpAddr
unfolding read_ipv4_addr read_ipv6_addr
parse_ip_addr s = whole (orelse read_v4 read_v6 s)

-- All of the text is digits, and the number fits.
abbrev pub within_u32 : Option (ℕ × ℕ × List ℕ) → Option ℕ
within_u32 none = none
within_u32 (some (_, n, [])) = if ltb n 4294967296 then some n else none
within_u32 (some (_, n, _ ∷ _)) = none

abbrev pub digits_u32 : List ℕ → Option ℕ
digits_u32 [] = none
digits_u32 (c ∷ s) = within_u32 (scan_digits 10 (suc (length s)) 0 0 (c ∷ s))

-- `str::parse::<u32>`: one leading `+`, then decimal digits, without overflow.
unfoldable pub parse_u32 : List ℕ → Option ℕ
unfolding scan_digits
parse_u32 [] = none
parse_u32 (c ∷ s) = if c == b'+' then digits_u32 s else digits_u32 (c ∷ s)

-- `str::split_once` at one character.
unfoldable pub split_once : ℕ → List ℕ → Option (List ℕ × List ℕ)
split_once c [] = none
split_once c (x ∷ s) =
    let rest : Option (List ℕ × List ℕ) = elim (split_once c s) [
      | none ↦ none
      | some (a, b) ↦ some (x ∷ a, b)
    ] in
    if x == c then some ([], s) else rest
