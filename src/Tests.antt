-- ===== src/Tests.antt =====
-- Runs of the lexer on small texts.
pub mod Witnesses
pub mod Components
pub mod Compiled
use luce_seed.Base.Loop.{iterate}
use luce_seed.Base.Words.{u32}
use luce_seed.Base.{List, true, [], ◌∷◌, ◌≡◌, refl, Bytes, codes, bytes_eq, map, String}
use luce_seed.Lex
use luce_seed.Lex.Token.{Token, TokenKind}
use luce_seed.Source.Classify.{confusable_hint}
use luce_seed.Source.Types.{Source}
use luce_seed.Source.Utf8.{utf8_next, multibyte, continuation, refused}
use luce_seed.Support.Diagnostics.{empty_bag, add, locate}

abbrev pub sample : Bytes → Source
sample text = record {
  path = "t";
  bytes = text;
  directives = [];
  segments = [];
  scan_start = 0;
  is_ok = true;
}

kinds : Bytes → List TokenKind
unfolding Lex.Chars.is_ascii_alpha Lex.Chars.is_ascii_digit Lex.Chars.is_ident_start
    Lex.Chars.is_ident_continue Lex.Chars.is_hex_digit Lex.Chars.hex_value
    Lex.Chars.is_digit_for_base Lex.Chars.is_integer_suffix Lex.Chars.is_float_suffix
    Lex.Chars.closing_for Lex.Symbol.starts_with Lex.Symbol.take_first Lex.Symbol.single_symbol
    Lex.Symbol.match_symbol Lex.State.tokenizer Lex.State.at_end Lex.State.peek_byte
    Lex.State.starts_with Lex.State.column Lex.State.slice Lex.State.error_at Lex.State.error
    Lex.State.emit_at Lex.State.column_of Lex.State.emit Lex.State.advance Lex.State.advance_line
    Lex.State.layout_active Lex.State.is_newline Lex.State.count_while Lex.State.remaining
    Lex.Escape.hex_run Lex.Escape.refuse_escape Lex.Escape.unicode_escape Lex.Escape.byte_escape
    Lex.Escape.is_simple_escape Lex.Escape.scan_escape Lex.Literal.closes_string
    Lex.Literal.body_scalar Lex.Literal.body_round Lex.Literal.scan_string_body
    Lex.Literal.emit_text Lex.Literal.close_format Lex.Literal.open_field Lex.Literal.text_round
    Lex.Literal.scan_formatted_text Lex.Literal.format_literal Lex.Literal.plain_literal
    Lex.Literal.scan_string_literal Lex.Literal.character_round Lex.Literal.scan_character
    Lex.Number.digit_round Lex.Number.scan_digit_sequence Lex.Number.scan_numeric_suffix
    Lex.Number.finish_based Lex.Number.finish_decimal Lex.Number.scan_exponent
    Lex.Number.scan_fraction Lex.Number.scan_number Lex.Layout.dedent_to Lex.Layout.below_region
    Lex.Layout.leave_region Lex.Layout.update_indentation Lex.Layout.note_close
    Lex.Layout.comment_round Lex.Layout.skip_comment Lex.Layout.scan_documentation
    Lex.Layout.require_multiline_field Lex.Layout.leading_spaces Lex.Layout.end_raw_suite
    Lex.Layout.skip_to_newline Lex.Layout.raw_line Lex.Layout.start_raw Lex.Layout.raw_round
    Lex.Layout.scan_raw_line_start Lex.Layout.comment_line Lex.Layout.line_round
    Lex.Layout.scan_line_start Lex.Layout.close_line Lex.Layout.close_region
    Lex.Layout.finish_layout_region Lex.Layout.close_delimiter Lex.Layout.colon_ends_line
    Lex.Run.check_length Lex.Run.note_asm Lex.Run.emit_symbol Lex.Run.scan_word Lex.Run.open_suite
    Lex.Run.apply_symbol Lex.Run.scan_symbol Lex.Run.unexpected Lex.Run.scan_newline
    Lex.Run.scan_token Lex.Run.report_open Lex.Run.needs_newline Lex.Run.end_line Lex.Run.finish
    Lex.Run.run_round Lex.Run.run Lex.Run.tokenize Lex.Keyword.keyword_kind Lex.Keyword.search_loop
    Lex.Keyword.compare_bytes iterate u32 bytes_eq confusable_hint utf8_next multibyte continuation
    refused add locate
kinds text = map (λ (t : Token). t.kind) (Lex.Run.tokenize (sample text) empty_bag).0

messages : Bytes → List String
unfolding kinds
messages text = map (λ d. d.message) (Lex.Run.tokenize (sample text) empty_bag).1.items

suite :
    kinds (codes "if a:\n    b <<= 0x1F\nc\n")
    ≡ TokenKind.kw_if ∷ TokenKind.name ∷ TokenKind.colon ∷ TokenKind.newline ∷ TokenKind.indent
      ∷ TokenKind.name ∷ TokenKind.lt_lt_eq ∷ TokenKind.int_lit ∷ TokenKind.newline
      ∷ TokenKind.dedent ∷ TokenKind.name ∷ TokenKind.newline ∷ TokenKind.end_of_file ∷ []
unfolding kinds
suite = refl
