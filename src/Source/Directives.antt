-- ===== src/Source/Directives.antt =====
-- `scan_directives` of src/source/source.cpp: the lines `#: file:line:column` of a text.
use luce_seed.Base.{
  ℕ, zero, suc, ◌+◌, ◌*◌, ◌-◌, ◌&&◌, ◌||◌, List, [], ◌∷◌, ◌++◌, Option, none, some, Bytes, length,
  false, get_or, take, drop, ltb, leb, ◌==◌, if◌then◌else◌, is_empty, ◌≡◌, refl, codes,
}
use luce_seed.Base.Words.{u32}
use luce_seed.Source.Types.{Directive}

-- `rest.rfind(c)` within the first `length` bytes: the position of the last `c`.
rfind_in : ℕ → Bytes → ℕ → Option ℕ → Option ℕ
rfind_in c [] at found = found
rfind_in c (x ∷ xs) at found = rfind_in c xs (at + 1) (if x == c then some at else found)

unfoldable pub rfind : ℕ → Bytes → Option ℕ
unfolding rfind_in
rfind c s = rfind_in c s 0 none

-- `while (i < end && bytes[i] == ' ') i++`, as the number of leading spaces.
unfoldable pub count_spaces : Bytes → ℕ
count_spaces [] = 0
count_spaces (x ∷ xs) = let rest = count_spaces xs in if x == b' ' then rest + 1 else 0

-- `while (e > s && (bytes[e - 1] == ' ' || bytes[e - 1] == '\r')) e--`, as what is left.
unfoldable pub trim_end : Bytes → Bytes
trim_end [] = []
trim_end (x ∷ xs) = elim (trim_end xs) [
  | [] ↦ if x == b' ' || x == b'\r' then [] else x ∷ []
  | y ∷ ys ↦ x ∷ y ∷ ys
]

-- The loop of the lambda `number`, with the number read so far.
digits_loop : Bytes → ℕ → Option ℕ
digits_loop [] n = some (u32 n)
digits_loop (c ∷ t) n =
    let rest = digits_loop t (n * 10 + (c - b'0')) in
    if ltb c b'0' || ltb b'9' c || ltb 100000000 n then none else rest

unfoldable pub number : Bytes → Option ℕ
unfolding digits_loop
number t = if is_empty t then none else digits_loop t 0

-- The positions of the last two colons; neither may be the first byte.
two_colons : Bytes → Option (ℕ × ℕ)
two_colons rest = elim (rfind b':' rest) [
  | none ↦ none
  | some zero ↦ none
  | some (suc c) ↦ elim (rfind b':' (take (suc c) rest)) [
    | none ↦ none
    | some zero ↦ none
    | some (suc c1) ↦ some (suc c1, suc c)
  ]
]

-- `file:line:column`, split at its last two colons.
unfoldable pub parse_position : ℕ → Bytes → Option Directive
unfolding two_colons
parse_position base rest = elim (two_colons rest) [
  | none ↦ none
  | some (c1, c2) ↦ elim (number (take (c2 - c1 - 1) (drop (c1 + 1) rest))) [
    | none ↦ none
    | some line ↦ elim (number (drop (c2 + 1) rest)) [
      | none ↦ none
      | some column ↦ some (record {
        base_line = base;
        file = take c1 rest;
        line = line;
        column = column;
        fragment = false;
      })
    ]
  ]
]

-- What follows `#:` on line `line`.
unfoldable pub directive_of : ℕ → Bytes → Option Directive
directive_of line text =
    let body = trim_end (drop (count_spaces text) text) in
    if is_empty body
    then some
        (record { base_line = u32 (line + 1); file = []; line = 0; column = 0; fragment = false })
    else parse_position (u32 (line + 1)) body

-- One line of the text, without its newline.
unfoldable pub scan_line : ℕ → Bytes → List Directive
scan_line line text =
    let rest = drop (count_spaces text) text in
    if leb 2 (length rest) && get_or rest 0 0 == b'#' && get_or rest 1 0 == b':'
    then elim (directive_of line (drop 2 rest)) [ none ↦ [] | some d ↦ d ∷ [] ]
    else []

-- The loop over the lines; `current` holds the bytes of the line read so far.
scan_lines : Bytes → ℕ → Bytes → List Directive → List Directive
scan_lines [] line current out = if is_empty current then out else out ++ scan_line line current
scan_lines (c ∷ rest) line current out =
    let ends = c == b'\n' in
    scan_lines rest (if ends then u32 (line + 1) else line) (if ends then [] else current ++ c ∷ [])
      (if ends then out ++ scan_line line current else out)

unfoldable pub scan_directives : Bytes → List Directive
unfolding scan_lines
scan_directives bytes = scan_lines bytes 1 [] []

one_directive :
    scan_directives (codes "a\n  #: b.luce:7:2 \nc")
    ≡ record { base_line = 3; file = codes "b.luce"; line = 7; column = 2; fragment = false } ∷ []
unfolding scan_directives scan_line directive_of parse_position rfind number count_spaces trim_end
    u32
one_directive = refl
