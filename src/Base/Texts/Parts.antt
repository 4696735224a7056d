-- ===== src/Base/Texts/Parts.antt =====
-- Proofs about splitting, joining and trimming texts.
use Prim.Native.Nat.{ℕ}
use mathlib.Core.Path.{◌≡◌, refl, sym, ap, ◌∙◌}
use mathlib.Core.Bool.{Bool, true, false, not, ◌&&◌}
use mathlib.Core.List.{List, [], ◌∷◌, ◌++◌, append_assoc}
use native.Mathlib.Omega.{arith}
use aws_net_hound.Base.Tests.{◌==◌, ==_iff, if◌then◌else◌}
use aws_net_hound.Base.Lists.{All, all, flat_map}
use aws_net_hound.Base.Texts.{onto_first, split, join, lines, lines_of, strip_cr, is_nil, trim}

-- The character stands nowhere in the text.
abbrev pub Lacks : ℕ → List ℕ → Type 0
Lacks sep s = All (λ c. (c == sep) ≡ false) s

pub Lacks_of_all : (sep : ℕ) (s : List ℕ) → all (λ c. not (c == sep)) s ≡ true → Lacks sep s
Lacks_of_all sep [] h = tt
Lacks_of_all sep (c ∷ s) h = (ground arith, Lacks_of_all sep s (ground arith))

same_sep : (sep : ℕ) → (sep == sep) ≡ true
same_sep sep = (==_iff sep sep).1 refl

-- A text up to its first separator is the first part.
pub split-append :
    (sep : ℕ) (s rest : List ℕ) → Lacks sep s → split sep (s ++ sep ∷ rest) ≡ s ∷ split sep rest
split-append sep [] rest h = rw (same_sep sep) refl
split-append sep (c ∷ s) rest h = rw (h.0, split-append sep s rest h.1) refl

pub split-cons :
    (sep : ℕ) (s : List ℕ)
    → (part : List ℕ) × (parts : List (List ℕ)) × (split sep s ≡ part ∷ parts)
split-cons sep [] = ([], [], refl)
split-cons sep (c ∷ s) = let (part, parts, e) = split-cons sep s in go (c == sep) part parts e
  where
    go :
        (b : Bool) (part : List ℕ) (parts : List (List ℕ))
        → split sep s ≡ part ∷ parts
        → (p : List ℕ) × (ps : List (List ℕ)) × ((if b
              then [] ∷ split sep s
              else onto_first c (split sep s))
            ≡ p ∷ ps)
    go true part parts e = ([], split sep s, refl)
    go false part parts e = (c ∷ part, parts, ap (onto_first c) e)

-- A text without the separator is one part.
pub split_whole : (sep : ℕ) (s : List ℕ) → Lacks sep s → split sep s ≡ s ∷ []
split_whole sep [] h = refl
split_whole sep (c ∷ s) h = rw (h.0, split_whole sep s h.1) refl

-- What holds of every character but the separator, every part has, and no part has a separator.
pub split-Lacks :
    (sep d : ℕ) (s : List ℕ) → Lacks d s → All (λ part. Lacks sep part × Lacks d part) (split sep s)
split-Lacks sep d [] h = ((tt, tt), tt)
split-Lacks sep d (c ∷ s) h = go (c == sep) refl (split sep s) (split-Lacks sep d s h.1)
  where
    go :
        (b : Bool)
        → (c == sep) ≡ b
        → (parts : List (List ℕ)) → All (λ part. Lacks sep part × Lacks d part) parts
        → All (λ part. Lacks sep part × Lacks d part) (if b then [] ∷ parts else onto_first c parts)
    go true e parts k = ((tt, tt), k)
    go false e [] k = (((e, tt), (h.0, tt)), tt)
    go false e (part ∷ parts) k = (((e, k.0.0), (h.0, k.0.1)), k.1)

-- A text in front of lines.
abbrev pub glue : ℕ → List ℕ → List (List ℕ) → List ℕ
glue sep s [] = s
glue sep s (line ∷ rest) = s ++ sep ∷ join sep (line ∷ rest)

join-cons :
    (sep : ℕ) (part : List ℕ) (s : List ℕ) (rest : List (List ℕ))
    → join sep (part ∷ split sep s ++ rest) ≡ part ++ sep ∷ join sep (split sep s ++ rest)
join-cons sep part s rest = let (p, ps, e) = split-cons sep s in rw e refl

join-onto_first :
    (sep c : ℕ) (s : List ℕ) (rest : List (List ℕ))
    → join sep (onto_first c (split sep s) ++ rest) ≡ c ∷ join sep (split sep s ++ rest)
join-onto_first sep c s rest = let (p, ps, e) = split-cons sep s in rw e (go p ps rest)
  where
    go :
        (p : List ℕ) (ps rest : List (List ℕ))
        → join sep ((c ∷ p) ∷ ps ++ rest) ≡ c ∷ join sep (p ∷ ps ++ rest)
    go p [] [] = refl
    go p [] (r ∷ rest) = refl
    go p (q ∷ ps) rest = refl

glue-cons :
    (sep c : ℕ) (s : List ℕ) (rest : List (List ℕ)) → glue sep (c ∷ s) rest ≡ c ∷ glue sep s rest
glue-cons sep c s [] = refl
glue-cons sep c s (line ∷ rest) = refl

-- The parts of a text, joined again with lines after them.
pub join-split_append :
    (sep : ℕ) (s : List ℕ) (rest : List (List ℕ)) → join sep (split sep s ++ rest) ≡ glue sep s rest
join-split_append sep [] [] = refl
join-split_append sep [] (line ∷ rest) = refl
join-split_append sep (c ∷ s) rest = go (c == sep) refl (join-split_append sep s rest)
  where
    go :
        (b : Bool)
        → (c == sep) ≡ b
        → join sep (split sep s ++ rest) ≡ glue sep s rest
        → join sep ((if b then [] ∷ split sep s else onto_first c (split sep s)) ++ rest)
          ≡ glue sep (c ∷ s) rest
    go true same h =
        join-cons sep [] s rest
        ∙ ap (λ t. sep ∷ t) h
        ∙ ap (λ d. d ∷ glue sep s rest) (sym ((==_iff c sep).0 same))
        ∙ sym (glue-cons sep c s rest)
    go false other h =
        join-onto_first sep c s rest ∙ ap (λ t. c ∷ t) h ∙ sym (glue-cons sep c s rest)

-- Every line of a text that ends each of them with a line break.
abbrev pub text_of : List (List ℕ) → List ℕ
text_of ls = flat_map (λ (l : List ℕ). l ++ 10 ∷ []) ls

abbrev pub IsLine : List ℕ → Type 0
IsLine l = Lacks 10 l × Lacks 13 l

and_false : (b : Bool) → (b && false) ≡ false
and_false true = refl
and_false false = refl

strip_cr_lem : (l : List ℕ) → Lacks 13 l → strip_cr l ≡ l
strip_cr_lem [] h = refl
strip_cr_lem (c ∷ l) h = rw (h.0, and_false (is_nil l)) (ap (λ t. c ∷ t) (strip_cr_lem l h.1))

split-text_of : (ls : List (List ℕ)) → All IsLine ls → split 10 (text_of ls) ≡ ls ++ [] ∷ []
split-text_of [] h = refl
split-text_of (l ∷ ls) h =
    ap (split 10) (append_assoc l (10 ∷ []) (text_of ls))
    ∙ split-append 10 l (text_of ls) h.0.0
    ∙ ap (λ rest. l ∷ rest) (split-text_of ls h.1)

lines_of-ended : (ls : List (List ℕ)) → All IsLine ls → lines_of (ls ++ [] ∷ []) ≡ ls
lines_of-ended [] h = refl
lines_of-ended (l ∷ []) h = ap (λ t. t ∷ []) (strip_cr_lem l h.0.1)
lines_of-ended (l ∷ m ∷ ls) h =
    rw (strip_cr_lem l h.0.1) (ap (λ rest. l ∷ rest) (lines_of-ended (m ∷ ls) h.1))

-- The lines of a text are read back.
pub lines-text_of : (ls : List (List ℕ)) → All IsLine ls → lines (text_of ls) ≡ ls
lines-text_of ls h = ap lines_of (split-text_of ls h) ∙ lines_of-ended ls h

-- Line breaks in front of a text do not matter to `trim`.
pub trim_breaks : (pre s : List ℕ) → All (λ c. c ≡ 10) pre → trim (pre ++ s) ≡ trim s
trim_breaks [] s h = refl
trim_breaks (c ∷ pre) s h = rw h.0 (trim_breaks pre s h.1)

pub join-flat_map-split :
    (sep : ℕ) (ts : List (List ℕ)) → join sep (flat_map (split sep) ts) ≡ join sep ts
join-flat_map-split sep [] = refl
join-flat_map-split sep (t ∷ ts) =
    join-split_append sep t (flat_map (split sep) ts) ∙ go ts (join-flat_map-split sep ts)
  where
    go :
        (ts : List (List ℕ))
        → join sep (flat_map (split sep) ts) ≡ join sep ts
        → glue sep t (flat_map (split sep) ts) ≡ join sep (t ∷ ts)
    go [] h = refl
    go (u ∷ us) h =
        let (p, ps, e) = split-cons sep u in glue_some p ps e ∙ ap (λ rest. t ++ sep ∷ rest) h
      where
        glue_some :
            (p : List ℕ) (ps : List (List ℕ))
            → split sep u ≡ p ∷ ps
            → glue sep t (flat_map (split sep) (u ∷ us))
              ≡ t ++ sep ∷ join sep (flat_map (split sep) (u ∷ us))
        glue_some p ps e = rw e refl
