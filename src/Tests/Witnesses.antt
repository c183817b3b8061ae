-- ===== src/Tests/Witnesses.antt =====
-- The theorems applied to small texts and states.
use luce_seed.Base.Loop.{Leaves, iterate}
use luce_seed.Base.{
  ℕ, none, ◌<◌, ◌≢◌, ◌↔◌, ◌⊎◌, get_or, Bool, false, true, [], ◌∷◌, ◌++◌, ◌≡◌, inl, inr, refl, arith,
  Bytes, codes, some, ◌≤◌, ◌+◌, length, drop, take,
}
use luce_seed.Lex.Balance.Tokens.{IsLayout, tokenize-IsLayout}
use luce_seed.Lex.Layout.{line_round, raw_round}
use luce_seed.Lex.Literal.{TextStart, body_round, character_round, text_round}
use luce_seed.Lex.Progress.Core.{From}
use luce_seed.Lex.Progress.Lines.{Settled}
use luce_seed.Lex.Progress.Raw.{RawSettled, raw_round-Leaves}
use luce_seed.Lex.Progress.Run.{Scanned, line_round-Leaves, run_round-Leaves}
use luce_seed.Lex.Progress.Scanners.{
  character_round-Leaves, scan_string_body-Leaves, text_round-Leaves,
}
use luce_seed.Lex.Run.{run_fuel, run_round, tokenize}
use luce_seed.Lex.State.{FormattedMode, Tokenizer, rounds, tokenizer}
use luce_seed.Source.Utf8.{utf8_next, multibyte, continuation, refused}
use luce_seed.Support.Diagnostics.{empty_bag, count}
use luce_seed.Support.Encode.Arith.{IsScalar}
use luce_seed.Support.Encode.RoundTrip.{utf8_next-append_utf8, utf8_next_sound}
use luce_seed.Support.Encode.{append_utf8}
use luce_seed.Tests.{sample}
use luce_seed.Lex.Keyword.Search.{IsFound, keyword_kind-exact}
use luce_seed.Lex.Keyword.{absent, k_keywords, keyword_kind}
use luce_seed.Lex.Token.{TokenKind}
use luce_seed.Source.Load.Accepts.{IsClean, from_bytes-count, from_bytes_iff}
use luce_seed.Source.Load.Refused.{Refusal, check_text, judge, judge_scalar, refusal}
use luce_seed.Source.Load.{bom_width, from_bytes, named_foreign_bom, point}
use luce_seed.Lex.Symbol.Longest.{IsAbsent, IsLongest, match_symbol-IsLongest}
use luce_seed.Lex.Symbol.{long_symbols, match_symbol, single_symbol}
use luce_seed.Source.Position.Agrees.{span_at-refusal}
use luce_seed.Source.Position.{span_at}
use luce_seed.Source.Classify.{is_bidi_control}
use luce_seed.Base.Words.{u32}
use luce_seed.Source.Types.{max_bytes}
use luce_seed.Support.Literal.Exact.{parse_int_literal-exact}
use luce_seed.Support.Literal.{digit_of, parse_int_literal, radix}
use luce_seed.Source.Utf8.Forms.{AreBytes}

abbrev block : Bytes
block = codes "if a:\n    b = 1\nc\n"

tokenize-IsLayout_example : IsLayout (tokenize (sample block) empty_bag).0
tokenize-IsLayout_example = tokenize-IsLayout (sample block) empty_bag

run_round-Leaves_example : Leaves (Scanned block) (
    iterate
      (run_fuel (tokenizer (sample block) empty_bag))
      run_round
      (tokenizer (sample block) empty_bag))
run_round-Leaves_example = run_round-Leaves (sample block) empty_bag

abbrev euro : Bytes
euro = 0x61 ∷ 0xE2 ∷ 0x82 ∷ 0xAC ∷ []

euro_bytes : AreBytes euro
euro_bytes = ground arith

utf8_next_sound_example :
    IsScalar 0x20AC × (1 + 3 ≤ length euro) × (append_utf8 [] 0x20AC ≡ take 3 (drop 1 euro))
unfolding utf8_next multibyte continuation refused
utf8_next_sound_example = utf8_next_sound euro 1 euro_bytes refl

abbrev spelled : Bytes
spelled = 0x61 ∷ 0xF0 ∷ 0x9F ∷ 0x98 ∷ 0x80 ∷ 0x62 ∷ []

spelled_bytes : AreBytes spelled
spelled_bytes = ground arith

utf8_next-append_utf8_example : utf8_next spelled 1 ≡ some (4, 0x1F600)
unfolding append_utf8
utf8_next-append_utf8_example =
    utf8_next-append_utf8 (0x61 ∷ []) (0x62 ∷ []) 0x1F600 (omega arith, inr (omega arith))
      spelled_bytes

-- A lexer at the start of a text.
abbrev fresh : Bytes → Tokenizer
fresh text = tokenizer (sample text) empty_bag

abbrev raw_start : Tokenizer
raw_start = record (fresh (codes "    nop\n    ret\nx\n")) { raw_suite = true }

raw_round-Leaves_example :
    Leaves
      (RawSettled raw_start.bytes raw_start.pos raw_start.delimiters raw_start.layout_regions)
      (iterate (rounds raw_start) raw_round raw_start)
unfolding tokenizer
raw_round-Leaves_example =
    raw_round-Leaves raw_start (refl, omega arith, refl, refl, refl, refl, inl refl)

line_round-Leaves_example :
    Leaves
      (Settled (fresh block).bytes (fresh block).pos (fresh block).raw_suite)
      (iterate (rounds (fresh block)) line_round (fresh block))
line_round-Leaves_example = line_round-Leaves (fresh block)

abbrev plain_mode : FormattedMode
plain_mode = record { is_triple = false; line = 1; column = 1 }

abbrev text_start : TextStart
text_start = record { start = 0; start_line = 1; start_column = 1 }

text_round-Leaves_example :
    let s = fresh (codes "a {b} c" ++ b'"' ∷ []) in
    Leaves (From s s.pos) (iterate (rounds s) (text_round plain_mode text_start) s)
text_round-Leaves_example =
    text_round-Leaves plain_mode text_start (fresh (codes "a {b} c" ++ b'"' ∷ []))

scan_string_body-Leaves_example :
    let s = fresh (codes "abc" ++ b'"' ∷ []) in
    Leaves
      (λ (r : Tokenizer × Bool). From s s.pos r.0)
      (iterate (rounds s) (body_round false false false 1 1) s)
scan_string_body-Leaves_example =
    scan_string_body-Leaves (fresh (codes "abc" ++ b'"' ∷ [])) false false false 1 1

character_round-Leaves_example :
    let s = fresh (codes "a'") in
    Leaves (From s s.pos) (iterate (rounds s) (character_round 0 1 1) (s, 0))
character_round-Leaves_example = character_round-Leaves (fresh (codes "a'")) 0 1 1 0

keyword_kind-exact_example :
    IsFound (codes "errdefer") (keyword_kind (codes "errdefer"))
    ⊎ ((keyword_kind (codes "errdefer") ≡ TokenKind.name)
        × ((i : ℕ)
            → i < length k_keywords
            → codes (get_or k_keywords i absent).spelling ≢ codes "errdefer"))
keyword_kind-exact_example = keyword_kind-exact (codes "errdefer")

parse_int_literal-exact_example :
    parse_int_literal (codes "1_000u16")
    ≡ record { is_ok = true; value = 1000; suffix = codes "u16" }
unfolding radix digit_of
parse_int_literal-exact_example = parse_int_literal-exact (codes "1_000u16")

from_bytes_iff_example : ((from_bytes "m" (codes "a\n") empty_bag).0.is_ok ≡ true) ↔ (
    (length (codes "a\n") ≤ max_bytes)
    × (named_foreign_bom (codes "a\n") ≡ none)
    × IsClean (codes "a\n") (bom_width (codes "a\n")))
from_bytes_iff_example = from_bytes_iff "m" (codes "a\n") empty_bag

from_bytes-count_example :
    let r = from_bytes "m" (codes "a\t") empty_bag in
    ((r.0.is_ok ≡ true) × (r.1 ≡ empty_bag))
    ⊎ ((r.0.is_ok ≡ false)
        × (count r.1 ≡ count empty_bag + 1)
        × (r.1.warnings ≡ empty_bag.warnings))
from_bytes-count_example = from_bytes-count "m" (codes "a\t") empty_bag

match_symbol-IsLongest_example :
    IsLongest long_symbols (codes "<<=1") 0 (match_symbol (codes "<<=1") 0)
    ⊎ (IsAbsent long_symbols (codes "<<=1") 0
        × (match_symbol (codes "<<=1") 0 ≡ single_symbol (get_or (codes "<<=1") 0 0)))
match_symbol-IsLongest_example = match_symbol-IsLongest (codes "<<=1") 0

-- A tab in the second line.
abbrev tabbed : Bytes
tabbed = codes "ab\nc\td"

abbrev tab_refusal : Refusal
tab_refusal = record {
  at = 4;
  line = 2;
  column = 2;
  code = "lucb.lex.tab";
  message = "tabs are not allowed; use spaces";
}

tab_is_refused : refusal tabbed ≡ some tab_refusal
unfolding refusal named_foreign_bom bom_width check_text judge judge_scalar utf8_next
    is_bidi_control u32
tab_is_refused = refl

span_at-refusal_example : span_at (from_bytes "m" tabbed empty_bag).0 4 4 ≡ point 4 2 2
span_at-refusal_example = span_at-refusal "m" tabbed empty_bag tab_refusal tab_is_refused
