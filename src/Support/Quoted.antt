-- ===== src/Support/Quoted.antt =====
-- `decode_string_literal` and `strip_triple` of src/support/literal.cpp.
pub mod RoundTrip
use luce_seed.Base.{
  ℕ, zero, suc, ◌+◌, ◌-◌, ◌*◌, Bool, true, false, not, ◌&&◌, ◌||◌, [], ◌∷◌, ◌++◌, Option, none,
  some, Bytes, bytes_eq, codes, drop, get_or, length, leb, ltb, take, ◌==◌, if◌then◌else◌, ◌≡◌,
  refl,
}
use luce_seed.Base.Words.{u32}
use luce_seed.Support.Character.{hex_value, simple_escape}
use luce_seed.Support.Encode.{append_utf8}

-- A newline behind the opening delimiter is not part of the text.
unfoldable pub after_newline : Bytes → Bytes
after_newline body =
    if leb 2 (length body) && (get_or body 0 0 == 13) && (get_or body 1 0 == 10)
    then drop 2 body
    else if leb 1 (length body) && (get_or body 0 0 == 10)
    then drop 1 body
    else body

-- A carriage return before a newline is left out.
unfoldable pub drop_returns : Bytes → Bytes
drop_returns [] = []
drop_returns (c ∷ cs) =
    let rest = drop_returns cs in if (c == 13) && (get_or cs 0 0 == 10) then rest else c ∷ rest

-- What stands behind the last newline.
unfoldable pub last_line : Bytes → Option Bytes
last_line [] = none
last_line (c ∷ cs) = elim (last_line cs) [
  | some line ↦ some line
  | none ↦ if c == 10 then some cs else none
]

unfoldable pub spaces : Bytes → ℕ
spaces [] = 0
spaces (c ∷ cs) = let rest = spaces cs in if c == 32 then suc rest else 0

-- The spaces before the closing delimiter, if nothing else stands there.
unfoldable pub indent_of : Bytes → ℕ
indent_of text = elim (last_line text) [
  | none ↦ 0
  | some line ↦ if spaces line == length line then spaces line else 0
]

-- The loop over the lines; `left` spaces may still be taken off the front of this one.
unfoldable pub strip_lines : ℕ → ℕ → Bytes → Bytes
strip_lines indent left [] = []
strip_lines indent left (c ∷ cs) =
    let skip = (c == 32) && ltb 0 left in
    let rest = strip_lines indent (if c == 10 then indent else if skip then left - 1 else 0) cs in
    if skip then rest else c ∷ rest

unfoldable pub strip_triple : Bytes → Bytes
strip_triple body =
    let text = drop_returns (after_newline body) in
    let indent = indent_of text in if indent == 0 then text else strip_lines indent indent text

-- Whether the literal is raw, whether it is one of bytes, and what stands behind the prefix.
unfoldable pub without_prefix : Bytes → Bool × Bool × Bytes
without_prefix token =
    let quoted = leb 2 (length token) && (get_or token 1 0 == 34) in
    if quoted && (get_or token 0 0 == b'r')
    then (true, false, drop 1 token)
    else if quoted && (get_or token 0 0 == b'b')
    then (false, true, drop 1 token)
    else (false, false, token)

abbrev three_quotes : Bytes
three_quotes = 34 ∷ 34 ∷ 34 ∷ []

unfoldable pub body_of : Bytes → Bytes
body_of token =
    let n = length token in
    if leb 6 n && bytes_eq (take 3 token) three_quotes && bytes_eq (drop (n - 3) token) three_quotes
    then strip_triple (take (n - 6) (drop 3 token))
    else if leb 2 n && (get_or token 0 0 == 34) && (get_or token (n - 1) 0 == 34)
    then take (n - 2) (drop 1 token)
    else token

-- What `\x` writes, and the text behind it.
unfoldable pub byte_escape : Bool → Bytes → Bytes × Bytes
byte_escape true (a ∷ b ∷ rest) = elim (hex_value a) [
  | none ↦ (b'x' ∷ [], a ∷ b ∷ rest)
  | some high ↦ elim (hex_value b) [
    | none ↦ (b'x' ∷ [], a ∷ b ∷ rest)
    | some low ↦ ((high * 16 + low) ∷ [], rest)
  ]
]
byte_escape _ rest = (b'x' ∷ [], rest)

-- `body.find('}', i + 2)`: what stands before the brace and behind it.
unfoldable pub to_brace : Bytes → Option (Bytes × Bytes)
to_brace [] = none
to_brace (c ∷ cs) =
    if c == b'}'
    then some ([], cs)
    else elim (to_brace cs) [ none ↦ none | some (digits, rest) ↦ some (c ∷ digits, rest) ]

unfoldable pub code_point : Bytes → ℕ → ℕ
code_point [] cp = cp
code_point (d ∷ ds) cp =
    code_point ds (u32 (cp * 16 + elim (hex_value d) [ none ↦ 0 | some digit ↦ digit ]))

-- What `\u` writes, and the text behind it.
unfoldable pub code_escape : Bytes → Bytes × Bytes
code_escape [] = (b'u' ∷ [], [])
code_escape (c ∷ cs) =
    let braced : Bytes × Bytes = elim (to_brace cs) [
      | none ↦ (b'u' ∷ [], c ∷ cs)
      | some (digits, rest) ↦ (append_utf8 [] (code_point digits 0), rest)
    ] in
    if c == b'{' then braced else (b'u' ∷ [], c ∷ cs)

unfoldable pub escape : Bool → ℕ → Bytes → Bytes × Bytes
escape bytes e cs =
    if e == b'x'
    then byte_escape bytes cs
    else if e == b'u'
    then code_escape cs
    else (elim (simple_escape e) [ none ↦ e | some c ↦ c ] ∷ [], cs)

-- One round of the loop: a backslash at the end stands for itself.
unfoldable pub decode_round : Bool → ℕ → Bytes → Bytes × Bytes
decode_round bytes c [] = (c ∷ [], [])
decode_round bytes c (e ∷ cs) = if c == 92 then escape bytes e cs else (c ∷ [], e ∷ cs)

-- The loop, with fuel.
unfoldable pub unescape : ℕ → Bool → Bytes → Bytes
unescape zero bytes body = []
unescape (suc fuel) bytes [] = []
unescape (suc fuel) bytes (c ∷ cs) =
    let (written, rest) = decode_round bytes c cs in written ++ unescape fuel bytes rest

unfoldable pub decode_string_literal : Bytes → Bytes
decode_string_literal token =
    let (raw, bytes, quoted) = without_prefix token in
    let body = body_of quoted in if raw then body else unescape (length body) bytes body
