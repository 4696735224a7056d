-- ===== src/Base/Texts.antt =====
-- The methods of Rust's `str` that the program uses, on a text as the list of its code points.
pub mod Parts
use Prim.Native.Nat.{ℕ, ◌+◌}
use mathlib.Core.Bool.{Bool, true, false, ◌&&◌, ◌||◌}
use mathlib.Core.List.{List, [], ◌∷◌, ◌++◌}
use aws_net_hound.Base.Tests.{leb, ◌==◌, if◌then◌else◌}

-- `char::is_whitespace`, the Unicode property White_Space.
abbrev pub is_whitespace : ℕ → Bool
is_whitespace c =
    (leb 9 c && leb c 13)
    || c == 32
    || c == 133
    || c == 160
    || c == 5760
    || (leb 8192 c && leb c 8202)
    || c == 8232
    || c == 8233
    || c == 8239
    || c == 8287
    || c == 12288

-- `str::trim_start`.
abbrev pub trim_start : List ℕ → List ℕ
trim_start [] = []
trim_start (c ∷ s) = if is_whitespace c then trim_start s else c ∷ s

abbrev pub is_nil : List ℕ → Bool
is_nil [] = true
is_nil (c ∷ s) = false

-- `str::trim_end`: a character stays if one that stays comes after it, or it is no whitespace.
abbrev pub trim_end : List ℕ → List ℕ
trim_end [] = []
trim_end (c ∷ s) = let rest = trim_end s in if is_nil rest && is_whitespace c then [] else c ∷ rest

-- `str::trim`.
abbrev pub trim : List ℕ → List ℕ
trim s = trim_end (trim_start s)

-- A character in front of the first part.
abbrev pub onto_first : ℕ → List (List ℕ) → List (List ℕ)
onto_first c [] = (c ∷ []) ∷ []
onto_first c (part ∷ parts) = (c ∷ part) ∷ parts

-- `str::split` at one character: there is always a part.
abbrev pub split : ℕ → List ℕ → List (List ℕ)
split sep [] = [] ∷ []
split sep (c ∷ s) = let rest = split sep s in if c == sep then [] ∷ rest else onto_first c rest

-- A line break that a carriage return stands before takes it along.
abbrev pub strip_cr : List ℕ → List ℕ
strip_cr [] = []
strip_cr (c ∷ s) = if is_nil s && c == 13 then [] else c ∷ strip_cr s

-- `str::lines`: what stands before each line break, and the rest where there is one.
abbrev pub lines_of : List (List ℕ) → List (List ℕ)
lines_of [] = []
lines_of (last ∷ []) = if is_nil last then [] else last ∷ []
lines_of (line ∷ next ∷ rest) = strip_cr line ∷ lines_of (next ∷ rest)

abbrev pub lines : List ℕ → List (List ℕ)
lines s = lines_of (split 10 s)

-- `join` of the parts, with one character between them.
abbrev pub join : ℕ → List (List ℕ) → List ℕ
join sep [] = []
join sep (part ∷ []) = part
join sep (part ∷ next ∷ rest) = part ++ sep ∷ join sep (next ∷ rest)

-- `starts_with`, on texts.
abbrev pub starts_with : List ℕ → List ℕ → Bool
starts_with s [] = true
starts_with [] (p ∷ ps) = false
starts_with (c ∷ s) (p ∷ ps) = c == p && starts_with s ps

-- `u8::to_ascii_lowercase`; a character above ASCII stays as it is.
abbrev pub to_ascii_lowercase : ℕ → ℕ
to_ascii_lowercase c = if leb b'A' c && leb c b'Z' then c + 32 else c

-- `==` on texts.
abbrev pub same_text : List ℕ → List ℕ → Bool
same_text [] [] = true
same_text [] (d ∷ t) = false
same_text (c ∷ s) [] = false
same_text (c ∷ s) (d ∷ t) = c == d && same_text s t
