-- ===== src/Migrations/Files/Statements.antt =====
-- crates/core/src/migrations.rs: `split_statements` on a file that keeps to the delimiter contract.
use aws_net_hound.Base.{
  ◌≡◌, refl, sym, ap, ◌∙◌, ◌==◌, ℕ, true, false, not, Option, none, some, List, [], ◌∷◌, ◌++◌, map,
  filter, flat_map, is_empty, present, All, All-append,
}
use mathlib.Core.List.{append-nil, append_assoc}
use aws_net_hound.Base.Texts.{split, join, trim}
use aws_net_hound.Base.Texts.Parts.{
  Lacks, IsLine, split-append, split_whole, split-Lacks, text_of, lines-text_of, trim_breaks,
  join-flat_map-split,
}
use aws_net_hound.Migrations.Files.{is_comment, split_statements}

-- What a file is made of: a comment line, a blank line, or a statement with its semicolon, on as many
-- lines as its text has.
pub data Entry : Type 0 where
  comment : (line : List ℕ) → Entry
  blank : Entry
  command : (text : List ℕ) → Entry

abbrev pub terminated : List ℕ → List ℕ
terminated text = text ++ b';' ∷ []

abbrev pub lines_in : Entry → List (List ℕ)
lines_in (comment line) = line ∷ []
lines_in blank = [] ∷ []
lines_in (command text) = split 10 (terminated text)

-- The file, each line of it with a line break.
abbrev pub source_of : List Entry → List ℕ
source_of entries = text_of (flat_map lines_in entries)

abbrev pub commands_of : List Entry → List (List ℕ)
commands_of [] = []
commands_of (command text ∷ entries) = text ∷ commands_of entries
commands_of (_ ∷ entries) = commands_of entries

-- A statement is no blank text, has no white space around it, no semicolon and no carriage return, and
-- none of its lines is a comment.
pub record IsCommand (text : List ℕ) : Type 0 where
  pub filled : is_empty text ≡ false
  pub trimmed : trim text ≡ text
  pub whole : Lacks b';' text
  pub plain : Lacks 13 text
  pub uncommented : All (λ line. is_comment line ≡ false) (split 10 (terminated text))

abbrev pub IsEntry : Entry → Type 0
IsEntry (comment line) = IsLine line × (is_comment line ≡ true)
IsEntry blank = Unit
IsEntry (command text) = IsCommand text

-- The chunks that the comment filter keeps: blank lines and statements.
abbrev Chunk : Type 0
Chunk = Option (List ℕ)

abbrev chunks_of : List Entry → List Chunk
chunks_of [] = []
chunks_of (comment _ ∷ entries) = chunks_of entries
chunks_of (blank ∷ entries) = none ∷ chunks_of entries
chunks_of (command text ∷ entries) = some text ∷ chunks_of entries

abbrev chunk : Chunk → List ℕ
chunk none = []
chunk (some text) = terminated text

abbrev kept : List (List ℕ) → List (List ℕ)
kept ls = filter (λ line. not (is_comment line)) ls

lines_in-IsLine :
    (entries : List Entry) → All IsEntry entries → All IsLine (flat_map lines_in entries)
lines_in-IsLine [] h = tt
lines_in-IsLine (comment line ∷ entries) h = (h.0.0, lines_in-IsLine entries h.1)
lines_in-IsLine (blank ∷ entries) h = ((tt, tt), lines_in-IsLine entries h.1)
lines_in-IsLine (command text ∷ entries) (h, hs) =
    All-append IsLine (split 10 (terminated text)) _
      (split-Lacks 10 13 (terminated text)
        (All-append (λ c. (c == 13) ≡ false) text (b';' ∷ []) h.plain (refl, tt)))
      (lines_in-IsLine entries hs)

kept-append :
    (ls rest : List (List ℕ))
    → All (λ line. is_comment line ≡ false) ls
    → kept (ls ++ rest) ≡ ls ++ kept rest
kept-append [] rest h = refl
kept-append (l ∷ ls) rest h = rw h.0 (ap (λ t. l ∷ t) (kept-append ls rest h.1))

kept-lines :
    (entries : List Entry)
    → All IsEntry entries
    → kept (flat_map lines_in entries) ≡ flat_map (split 10) (map chunk (chunks_of entries))
kept-lines [] h = refl
kept-lines (comment line ∷ entries) h = rw h.0.1 (kept-lines entries h.1)
kept-lines (blank ∷ entries) h = ap (λ t. [] ∷ t) (kept-lines entries h.1)
kept-lines (command text ∷ entries) (h, hs) =
    kept-append (split 10 (terminated text)) _ h.uncommented
    ∙ ap (λ t. split 10 (terminated text) ++ t) (kept-lines entries hs)

abbrev statements_in : List ℕ → List (List ℕ)
statements_in text = filter (λ s. not (is_empty s)) (map trim (split b';' text))

abbrev after : List Chunk → List ℕ
after [] = []
after (c ∷ cs) = 10 ∷ join 10 (map chunk (c ∷ cs))

join-chunk : (c : Chunk) (cs : List Chunk) → join 10 (map chunk (c ∷ cs)) ≡ chunk c ++ after cs
join-chunk c [] = sym (append-nil (chunk c))
join-chunk c (d ∷ cs) = refl

abbrev Breaks : List ℕ → Type 0
Breaks pre = All (λ c. c ≡ 10) pre

abbrev IsChunk : Chunk → Type 0
IsChunk none = Unit
IsChunk (some text) = IsCommand text

breaks-Lacks : (pre : List ℕ) → Breaks pre → Lacks b';' pre
breaks-Lacks [] h = tt
breaks-Lacks (c ∷ pre) h = (rw h.0 refl, breaks-Lacks pre h.1)

statements_in-Breaks : (pre : List ℕ) → Breaks pre → statements_in pre ≡ []
statements_in-Breaks pre h =
    ap (λ parts. filter (λ s. not (is_empty s)) (map trim parts))
      (split_whole b';' pre (breaks-Lacks pre h))
    ∙ ap (λ t. filter (λ s. not (is_empty s)) (t ∷ []))
        (ap trim (sym (append-nil pre)) ∙ trim_breaks pre [] h)

statements_in-command :
    (pre text rest : List ℕ)
    → Breaks pre
    → IsCommand text
    → statements_in (pre ++ (terminated text ++ rest)) ≡ text ∷ statements_in rest
statements_in-command pre text rest b h =
    ap statements_in (
      ap (λ t. pre ++ t) (append_assoc text (b';' ∷ []) rest)
      ∙ sym (append_assoc pre text (b';' ∷ rest)))
    ∙ ap (λ parts. filter (λ s. not (is_empty s)) (map trim parts))
        (split-append b';' (pre ++ text) rest
          (All-append (λ c. (c == b';') ≡ false) pre text (breaks-Lacks pre b) h.whole))
    ∙ rw (trim_breaks pre text b, h.trimmed, h.filled) refl

-- A chunk after line breaks, where what comes after it is known.
statements_in-chunk :
    (pre : List ℕ) (c : Chunk) (cs : List Chunk)
    → Breaks pre
    → IsChunk c
    → ((later : List ℕ) → Breaks later → statements_in (later ++ after cs) ≡ present cs)
    → statements_in (pre ++ join 10 (map chunk (c ∷ cs))) ≡ present (c ∷ cs)
statements_in-chunk pre none cs b h known =
    ap (λ t. statements_in (pre ++ t)) (join-chunk none cs) ∙ known pre b
statements_in-chunk pre (some text) cs b h known =
    ap (λ t. statements_in (pre ++ t)) (join-chunk (some text) cs)
    ∙ statements_in-command pre text (after cs) b h
    ∙ ap (λ rest. text ∷ rest) (known [] tt)

statements_in-after :
    (cs : List Chunk)
    → All IsChunk cs
    → (pre : List ℕ) → Breaks pre
    → statements_in (pre ++ after cs) ≡ present cs
statements_in-after [] h pre b = ap statements_in (append-nil pre) ∙ statements_in-Breaks pre b
statements_in-after (c ∷ cs) h pre b =
    ap statements_in (sym (append_assoc pre (10 ∷ []) (join 10 (map chunk (c ∷ cs)))))
    ∙ statements_in-chunk (pre ++ 10 ∷ []) c cs
        (All-append (λ c. c ≡ 10) pre (10 ∷ []) b (refl, tt)) h.0 (statements_in-after cs h.1)

statements_in-chunks :
    (cs : List Chunk) → All IsChunk cs → statements_in (join 10 (map chunk cs)) ≡ present cs
statements_in-chunks [] h = refl
statements_in-chunks (c ∷ cs) h = statements_in-chunk [] c cs tt h.0 (statements_in-after cs h.1)

chunks_of-IsChunk : (entries : List Entry) → All IsEntry entries → All IsChunk (chunks_of entries)
chunks_of-IsChunk [] h = tt
chunks_of-IsChunk (comment line ∷ entries) h = chunks_of-IsChunk entries h.1
chunks_of-IsChunk (blank ∷ entries) h = (tt, chunks_of-IsChunk entries h.1)
chunks_of-IsChunk (command text ∷ entries) h = (h.0, chunks_of-IsChunk entries h.1)

present-chunks_of : (entries : List Entry) → present (chunks_of entries) ≡ commands_of entries
present-chunks_of [] = refl
present-chunks_of (comment line ∷ entries) = present-chunks_of entries
present-chunks_of (blank ∷ entries) = present-chunks_of entries
present-chunks_of (command text ∷ entries) = ap (λ rest. text ∷ rest) (present-chunks_of entries)

-- The statements of a file that is written of comment lines, blank lines and terminated statements, in
-- any order, are read back in their order, whatever semicolons the comments hold. A comment line has no
-- line break and no carriage return in it. A statement, of one line or of more, is not empty, has no
-- white space around it, no semicolon and no carriage return in it, and no line that is a comment.
pub split_statements-source_of :
    (entries : List Entry)
    → All IsEntry entries
    → split_statements (source_of entries) ≡ commands_of entries
unfolding split_statements
split_statements-source_of entries h =
    ap (λ ls. statements_in (join 10 (kept ls)))
      (lines-text_of (flat_map lines_in entries) (lines_in-IsLine entries h))
    ∙ ap (λ ls. statements_in (join 10 ls)) (kept-lines entries h)
    ∙ ap statements_in (join-flat_map-split 10 (map chunk (chunks_of entries)))
    ∙ statements_in-chunks (chunks_of entries) (chunks_of-IsChunk entries h)
    ∙ present-chunks_of entries
