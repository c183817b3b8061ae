-- ===== src/Lex/Balance/Core.antt =====
-- The invariant of the layout tokens, and the operations of the state.
use luce_seed.Base.{
  ℕ, ◌+◌, ◌*◌, ◌≤◌, List, [], ◌∷◌, Bytes, String, ◌≡◌, refl, arith, Bool, true, false,
}
use luce_seed.Lex.State.{Tokenizer, emit_at, emit, error_at, error, advance, advance_line}
use luce_seed.Lex.Token.{Token, TokenKind}

-- What a token adds to the count of indents, and of dedents.
abbrev pub opens : TokenKind → ℕ
opens TokenKind.indent = 1
opens _ = 0

abbrev pub closes : TokenKind → ℕ
closes TokenKind.dedent = 1
closes _ = 0

abbrev pub ends : TokenKind → ℕ
ends TokenKind.end_of_file = 1
ends _ = 0

-- The number of tokens of a kind that is told apart by one of the three functions above.
abbrev pub tally : (TokenKind → ℕ) → List Token → ℕ
tally f [] = 0
tally f (t ∷ ts) = f t.kind + tally f ts

-- With the newest token in front: nowhere were more suites closed than opened.
abbrev pub IsNested : List Token → Type 0
IsNested [] = Unit
IsNested (t ∷ ts) = (tally closes (t ∷ ts) ≤ tally opens (t ∷ ts)) × IsNested ts

-- The indentation is four columns for each suite that is open.
pub record Balanced (width : ℕ) (tokens : List Token) : Type 0 where
  pub columns : width + 4 * tally closes tokens ≡ 4 * tally opens tokens
  pub nested : IsNested tokens
  pub unfinished : tally ends tokens ≡ 0

abbrev pub Inv : Tokenizer → Type 0
Inv s = Balanced s.indent_width s.tokens

-- A kind that says nothing of the layout.
unfoldable pub is_plain : TokenKind → Bool
is_plain TokenKind.indent = false
is_plain TokenKind.dedent = false
is_plain TokenKind.end_of_file = false
is_plain _ = true

abbrev pub IsPlain : TokenKind → Type 0
IsPlain kind = is_plain kind ≡ true

plain_counts :
    (kind : TokenKind) → IsPlain kind → (opens kind ≡ 0) × (closes kind ≡ 0) × (ends kind ≡ 0)
unfolding is_plain
plain_counts TokenKind.indent p = cc
plain_counts TokenKind.dedent p = cc
plain_counts TokenKind.end_of_file p = cc
plain_counts _ p = (refl, refl, refl)

pub Balanced-plain :
    {width : ℕ} {tokens : List Token} (t : Token)
    → IsPlain t.kind
    → Balanced width tokens
    → Balanced width (t ∷ tokens)
Balanced-plain t p h =
    let (o, c, e) = plain_counts t.kind p in
    record {
      columns = omega (arith, h.columns, o, c);
      nested = (omega (arith, h.columns, o, c), h.nested);
      unfinished = omega (arith, h.unfinished, e);
    }

pub emit_at-Inv :
    (s : Tokenizer) (kind : TokenKind) (start end line column : ℕ) (suffix : Bytes)
    → IsPlain kind
    → Inv s
    → Inv (emit_at s kind start end line column suffix)
unfolding emit_at
emit_at-Inv s kind start end line column suffix p h = Balanced-plain _ p h

pub emit-Inv :
    (s : Tokenizer) (kind : TokenKind) (start end : ℕ)
    → IsPlain kind
    → Inv s
    → Inv (emit s kind start end)
unfolding emit
emit-Inv s kind start end p h = Balanced-plain _ p h

-- Four columns more, and an `indent`.
pub emit_indent-Inv :
    (s : Tokenizer) (width start end : ℕ)
    → width ≡ s.indent_width + 4
    → Inv s
    → Inv (emit (record s { indent_width = width }) TokenKind.indent start end)
unfolding emit
emit_indent-Inv s width start end e h = record {
  columns = omega (arith, h.columns);
  nested = (omega (arith, h.columns), h.nested);
  unfinished = omega (arith, h.unfinished);
}

-- Four columns less, and a `dedent`.
pub emit_dedent-Inv :
    (s : Tokenizer) (width start end : ℕ)
    → width + 4 ≡ s.indent_width
    → Inv s
    → Inv (emit (record s { indent_width = width }) TokenKind.dedent start end)
unfolding emit
emit_dedent-Inv s width start end e h = record {
  columns = omega (arith, h.columns);
  nested = (omega (arith, h.columns), h.nested);
  unfinished = omega (arith, h.unfinished);
}

module _ (s : Tokenizer) (h : Inv s) where
  pub error_at-Inv :
      (line column byte : ℕ) (code message : String)
      → Inv (error_at s line column byte code message)
  unfolding error_at
  error_at-Inv line column byte code message = h

  pub error-Inv : (code message : String) → Inv (error s code message)
  unfolding error
  error-Inv code message = h

  pub advance-Inv : (n : ℕ) → Inv (advance s n)
  unfolding advance
  advance-Inv n = h

  pub advance_line-Inv : Inv (advance_line s)
  unfolding advance_line
  advance_line-Inv = h
