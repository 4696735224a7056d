-- ===== src/Net/Reader.antt =====
-- The parser combinators of `std::net`. A failed read leaves the input where it was, so a parser
-- gives its value with the input that is left, or nothing.
use aws_net_hound.Base.{
  ℕ, zero, suc, ◌+◌, ◌-◌, ◌*◌, ◌/◌, ◌%◌, Bool, true, false, ◌&&◌, not, Option, none, some, List, [],
  ◌∷◌, ◌++◌, length, ltb, leb, ◌==◌, if◌then◌else◌,
}

abbrev pub Parser : Type 0 → Type 0
Parser A = List ℕ → Option (A × List ℕ)

abbrev pub orelse : {A : Type 0} → Parser A → Parser A → Parser A
orelse p q s = elim (p s) [ none ↦ q s | some r ↦ some r ]

infixl 5 ◌>>=◌
abbrev ◌>>=◌ : {A B : Type 0} → Parser A → (A → Parser B) → Parser B
◌>>=◌ p f s = elim (p s) [ none ↦ none | some (a, r) ↦ f a r ]

abbrev pure : {A : Type 0} → A → Parser A
pure a s = some (a, s)

abbrev fail : {A : Type 0} → Parser A
fail s = none

-- `char::to_digit`.
abbrev pub to_digit : ℕ → ℕ → Option ℕ
to_digit radix c =
    if leb b'0' c && leb c b'9'
    then some (c - b'0')
    else if radix == 10
    then none
    else if leb b'a' c && leb c b'f'
    then some (c - b'a' + 10)
    else if leb b'A' c && leb c b'F'
    then some (c - b'A' + 10)
    else none

-- The loop over digits: it stops at the first character that is none, and fails at a digit too many.
unfoldable pub scan_digits : ℕ → ℕ → ℕ → ℕ → List ℕ → Option (ℕ × ℕ × List ℕ)
scan_digits radix limit count n [] = some (count, n, [])
scan_digits radix limit count n (c ∷ s) = elim (to_digit radix c) [
  | none ↦ some (count, n, c ∷ s)
  | some d ↦
      let rest = scan_digits radix limit (suc count) (n * radix + d) s in
      if ltb limit (suc count) then none else rest
]

abbrev starts_with_zero : List ℕ → Bool
starts_with_zero [] = false
starts_with_zero (c ∷ _) = c == b'0'

-- `read_number` with a limit on the digits; `bound` is the first number that does not fit.
unfoldable pub read_number : ℕ → ℕ → Bool → ℕ → Parser ℕ
unfolding scan_digits
read_number radix limit allow_zero_prefix bound s = elim (scan_digits radix limit 0 0 s) [
  | none ↦ none
  | some (count, n, r) ↦
      if count == 0
      then none
      else if not allow_zero_prefix && starts_with_zero s && ltb 1 count
      then none
      else if ltb n bound
      then some (n, r)
      else none
]

abbrev pub read_given_char : ℕ → Parser (Unit {0})
read_given_char c [] = none
read_given_char c (x ∷ s) = if x == c then some (tt, s) else none

-- `read_separator`: the separator stands before every item but the first.
abbrev pub read_separator : {A : Type 0} → ℕ → ℕ → Parser A → Parser A
read_separator sep zero p = p
read_separator sep (suc i) p = read_given_char sep >>= λ _. p

abbrev octet : ℕ → Parser ℕ
octet i = read_separator b'.' i (read_number 10 3 false 256)

unfoldable pub read_ipv4_addr : Parser ℕ
unfolding read_number
read_ipv4_addr = octet 0 >>= λ a.
    octet 1 >>= λ b. octet 2 >>= λ c. octet 3 >>= λ d. pure (((a * 256 + b) * 256 + c) * 256 + d)

-- `read_groups`: with `room` groups left to read, the groups that were read, and whether the last
-- two came from an embedded IPv4 address. It never fails.
read_groups : ℕ → ℕ → List ℕ → List ℕ → List ℕ × Bool × List ℕ
unfolding read_ipv4_addr
read_groups zero i groups s = (groups, false, s)
read_groups (suc room) i groups s =
    elim (if 0 == room then none else read_separator b':' i read_ipv4_addr s) [
      | some (n, r) ↦ (groups ++ n / 65536 ∷ n % 65536 ∷ [], true, r)
      | none ↦ elim (read_separator b':' i (read_number 16 4 true 65536) s) [
        | none ↦ (groups, false, s)
        | some (g, r) ↦ read_groups room (suc i) (groups ++ g ∷ []) r
      ]
    ]

abbrev big_endian : ℕ → List ℕ → ℕ
big_endian n [] = n
big_endian n (g ∷ gs) = big_endian (n * 65536 + g) gs

abbrev zeros : ℕ → List ℕ
zeros zero = []
zeros (suc n) = 0 ∷ zeros n

abbrev tail_of : List ℕ → Parser ℕ
tail_of head s =
    let (tail, _, r) = read_groups (8 - (length head + 1)) 0 [] s in
    some (big_endian 0 (head ++ zeros (8 - length head - length tail) ++ tail), r)

-- The groups up to `::`, the two colons, and the groups behind them.
unfoldable pub read_ipv6_addr : Parser ℕ
unfolding read_groups
read_ipv6_addr s =
    let (head, head_ipv4, r) = read_groups 8 0 [] s in
    if length head == 8
    then some (big_endian 0 head, r)
    else if head_ipv4
    then none
    else (read_given_char b':' >>= λ _. read_given_char b':' >>= λ _. tail_of head) r
