-- ===== src/Lex/State.antt =====
-- The state of the `Tokenizer` of src/lex/lexer.cpp and the operations that the scanners share. An
-- operation takes the state and gives the new one. `indent_width`, `depth` and `base` are `int` in
-- the source; they are never negative.
use luce_seed.Base.{
  ℕ, suc, ◌+◌, ◌-◌, Bool, true, false, ◌||◌, List, [], ◌∷◌, String, Bytes, length, get_or, take,
  drop, ltb, leb, ◌==◌, if◌then◌else◌, is_empty,
}
use luce_seed.Base.Words.{u32}
use luce_seed.Lex.Chars.{Delim}
use luce_seed.Lex.Symbol
use luce_seed.Lex.Token.{TokenKind, Token}
use luce_seed.Source.Types.{Span, Source}
use luce_seed.Support.Diagnostics.{DiagnosticBag, add}

pub record LayoutRegion : Type 0 where
  pub depth : ℕ
  pub base : ℕ

pub record FormattedMode : Type 0 where
  pub is_triple : Bool
  pub line : ℕ
  pub column : ℕ

-- The vectors used as stacks (`delimiters`, `layout_regions`, `formatted`) are lists with the top in
-- front; `tokens` is kept with the newest token in front, too, and turned round at the end.
pub record Tokenizer : Type 0 where
  pub source : Source
  pub diagnostics : DiagnosticBag
  pub bytes : Bytes
  pub pos : ℕ
  pub line_start : ℕ
  pub line : ℕ
  pub indent_width : ℕ
  pub pending_layout : Bool
  pub delimiters : List Delim
  pub layout_regions : List LayoutRegion
  pub formatted : List FormattedMode
  pub tokens : List Token
  pub commented_close_line : ℕ
  pub commented_close_column : ℕ
  pub saw_asm : Bool
  pub raw_suite : Bool
  pub raw_started : Bool

-- The constructor.
unfoldable pub tokenizer : Source → DiagnosticBag → Tokenizer
tokenizer source bag = record {
  source = source;
  diagnostics = bag;
  bytes = source.bytes;
  pos = source.scan_start;
  line_start = source.scan_start;
  line = 1;
  indent_width = 0;
  pending_layout = true;
  delimiters = [];
  layout_regions = [];
  formatted = [];
  tokens = [];
  commented_close_line = 0;
  commented_close_column = 0;
  saw_asm = false;
  raw_suite = false;
  raw_started = false;
}

unfoldable pub at_end : Tokenizer → Bool
at_end s = leb (length s.bytes) s.pos

unfoldable pub peek_byte : Tokenizer → ℕ → ℕ
peek_byte s offset =
    if leb (length s.bytes) (s.pos + offset) then 0 else get_or s.bytes (s.pos + offset) 0

unfoldable pub starts_with : Tokenizer → Bytes → Bool
unfolding Symbol.starts_with
starts_with s text = Symbol.starts_with s.bytes s.pos text

unfoldable pub column : Tokenizer → ℕ
column s = u32 (s.pos - s.line_start + 1)

unfoldable pub slice : Tokenizer → ℕ → ℕ → Bytes
slice s start end =
    if ltb end start || ltb (length s.bytes) end
    then []
    else take (end - start) (drop start s.bytes)

unfoldable pub error_at : Tokenizer → ℕ → ℕ → ℕ → String → String → Tokenizer
error_at s at_line at_column byte code message =
    let span : Span = record {
      start = u32 byte;
      end = u32 byte;
      line = at_line;
      column = at_column;
    } in
    record s { diagnostics = add s.diagnostics code s.source.path span message }

unfoldable pub error : Tokenizer → String → String → Tokenizer
unfolding error_at
error s code message = error_at s s.line (column s) s.pos code message

unfoldable pub emit_at : Tokenizer → TokenKind → ℕ → ℕ → ℕ → ℕ → Bytes → Tokenizer
emit_at s kind start end token_line token_column suffix =
    let token : Token = record {
      kind = kind;
      span = record { start = u32 start; end = u32 end; line = token_line; column = token_column };
      text = slice s start end;
      suffix = suffix;
    } in
    record s { tokens = token ∷ s.tokens }

unfoldable pub column_of : Tokenizer → ℕ → ℕ
column_of s byte = if ltb byte s.line_start then 1 else u32 (byte - s.line_start + 1)

unfoldable pub emit : Tokenizer → TokenKind → ℕ → ℕ → Tokenizer
unfolding emit_at
emit s kind start end = emit_at s kind start end s.line (column_of s start) []

-- `pos_ += n`
unfoldable pub advance : Tokenizer → ℕ → Tokenizer
advance s n = record s { pos = s.pos + n }

unfoldable pub advance_line : Tokenizer → Tokenizer
advance_line s =
    let after = s.pos + (if peek_byte s 0 == b'\r' then 2 else 1) in
    record s { pos = after; line = u32 (s.line + 1); line_start = after }

unfoldable pub layout_active : Tokenizer → Bool
layout_active s = elim s.layout_regions [
  | [] ↦ is_empty s.delimiters
  | region ∷ rest ↦ length s.delimiters == region.depth
]

-- The fuel of a loop that takes at least a byte in each round.
abbrev pub rounds : Tokenizer → ℕ
rounds s = suc (length s.bytes)

-- `peek_byte() == '\n' || peek_byte() == '\r'`
unfoldable pub is_newline : ℕ → Bool
is_newline c = c == b'\n' || c == b'\r'

-- `while (pos_ + width < size && bytes_[pos_ + width] == ' ') width += 1`, on the rest of the text.
unfoldable pub count_while : (ℕ → Bool) → Bytes → ℕ
count_while p [] = 0
count_while p (c ∷ rest) = let more = count_while p rest in if p c then more + 1 else 0

-- The bytes from the position on.
unfoldable pub remaining : Tokenizer → Bytes
remaining s = drop s.pos s.bytes
