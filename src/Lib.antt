-- ===== src/Lib.antt =====
-- luce-seed, a compiler and interpreter: from the bytes of a file to the tokens of the language, and
-- parts of what works on the checked program.
--
-- The program reads a source file, refuses what is not well-formed text, and cuts it into tokens, with
-- the indentation turned into `indent` and `dedent` tokens. What goes wrong is added to a bag of
-- diagnostics; a lexer run always goes on to the end-of-file token. The literals among the tokens are
-- decoded by src/support; the types of a program have their layout from src/check; the interpreter
-- computes on values that carry such a type, and the emitter writes C that calls the runtime for the same
-- operators; and all parts take their storage from one arena.
--
-- Source models src/source. `Types` holds `Span`, `Directive`, `Segment` and `Source` of source.h; `Utf8`
-- is `utf8_next`; `Classify` is `is_bidi_control` and `confusable_hint`; `Directives` is
-- `scan_directives`; `Load` is `named_foreign_bom` and `Source::from_bytes`; `Position` is
-- `Source::span_at`; `Assemble` is `Source::assembled`. `Load/Refused` says which refusal comes first and
-- `Load/Sites` that `from_bytes` returns there; `Load/Accepts` says what a text that is accepted is,
-- `Position/Agrees` sets the two ways to count lines and columns side by side.
-- Support models parts of src/support. `Diagnostics` is `DiagnosticBag` of diagnostics.cpp; `Encode` is
-- `append_utf8` of literal.cpp and `Literal` its parsers of integer literals, where a pointer for the
-- result that is null is left out. `Encode/RoundTrip` is about `append_utf8` and `utf8_next` together,
-- `Literal/Exact` about integers without a bound.
-- `Character` is `parse_char_literal`, `Quoted` is `strip_triple` and `decode_string_literal`, each with its
-- round trip; `Braces` is `unescape_format_braces`.
-- `Arena` is arena.cpp, with each block given as its chunk and its place there; `Arena/Aligned` is about the
-- rounding and `Arena/Apart` about the blocks. `Decimal` is `decimal_to_bits` of decimal.cpp: `Big` its
-- integers of up to 192 limbs, `Read` the reading of the literal, `Round` the division and the rounding;
-- `Big/Value`, `Big/Exact` and `Big/Length` are about the numbers that the limbs stand for, `Round/Division`
-- about the quotient, `Round/Nearest` about the mantissa, `Round/Given` and `Round/Total` about the
-- room in the limbs, and `Round/Rounded` about the whole way from the digits to the bits.
-- Check models parts of src/check/type.cpp: `Kind` the kinds and the ranges of the integers, `Layout` sizes,
-- alignments and offsets, in `int`. `Layout/Exact` is the same layout in numbers without a bound, which
-- `Layout/Rounding`, `Layout/Sound` and `Layout/Places` are about; `Layout/Fits` says for which types
-- `int` is wide enough, and `Layout/Computed` that the two layouts of these are the same.
-- `Init` is src/check/init.cpp, on the nodes of `Init/Tree`, with `always_returns` and `contains_break` of
-- stmt.cpp in `Init/Returns`. `Init/Paths` says independently of it what the runs of such a body are and what
-- they do to the fields, with the `break`, `continue` and `return` of a `catch` that lead out of an
-- expression, and `Init/Parts` what the expressions are; `Init/Recognised`, `Init/Leaves`, `Init/Uses`,
-- `Init/Sound` and `Init/Assigned` set the two side by side.
-- Interp models parts of src/interp: `Value` the integer values of value.h, `Arith` the integer operators,
-- `unary_scalar` and the integer conversions of ops.cpp, with `Widths`, `Exact`, `Saturated` and `Convert`
-- against integers without a bound.
-- Emit models what src/emit/expr.cpp writes for integers: `Arith` is `emit_arith`, `emit_helper` and
-- `emit_unary_scalar` with `word_cast` and `down_cast` of cgen.cpp, `Optional` the part of `emit_binary` for
-- `+?`, `-?` and `*?`; the flag `at_file_scope` of `emit_arith` and `emit_unary_scalar` is an
-- argument, and with it the C is a plain operator, whose result the theorems say nothing of. `Convert`
-- is the part of `emit_conv` for integers and `char`. The text is a tree, and `run` and its kin say
-- what a C compiler makes of it: casts cut a number in two's complement, a call is the helper of the
-- runtime. `Arith/Agrees`, `Arith/Unary`, `Optional/Agrees` and `Convert/Character` compare that with
-- the interpreter.
-- Runtime models parts of src/runtime: `Word` and `Arith` are the integer helpers of lucb_rt.h and
-- lucb_rt.c, `Convert` its conversions, `Text` `lb_utf8_ok`, `lb_check_utf8` and `lb_utf8_scalar`, and
-- `Fixed` the part of `lb_alloc_bytes` and `lb_resize_bytes` for a fixed buffer; `Text/Valid` and
-- `Text/Scalar` set the text against `utf8_next` of src/source, `Fixed/Packed` is about the blocks.
-- Lex models src/lex. `Token` and `Keyword` are token.h and token.cpp. The class `Tokenizer` of lexer.cpp
-- is the record `Tokenizer` of `State`, and each of its member functions is a function from a state to
-- the new state: `Symbol` (`match_symbol`), `Escape` (`scan_escape`), `Literal` (`scan_string_literal`,
-- `scan_formatted_text`, `scan_character`), `Number` (`scan_number`), `Layout` (indentation, comments, raw
-- suites, delimiters) and `Run` (`scan_token`, `finish`, `run`, `tokenize`). `Balance` holds the
-- invariant of the layout tokens, `Progress` the termination of the loops;
-- `Keyword/Search` is about the binary search and `Symbol/Longest` about the order of the operators.
-- Base holds what these share: lists and Boolean tests over the native numbers, words, signed
-- integers, bits, and loops.
--
-- How the code is represented. A byte is a number below 256, a text a list of bytes; paths and messages
-- are strings. `size_t` offsets are numbers, which stay below the 64 MiB bound on a source; fields
-- of 32 bits are cut to them by `u32`. `indent_width`, `depth` and `base` are `int` in the
-- source and never negative. A vector used as a stack is a list with its top in front. A function that
-- changes the state and returns a value gives a pair. A loop that leaves at several places is
-- `iterate` of a round, which either goes round again or leaves with a result. Signed integers are ℤ: an
-- `int64_t` result is cut by `to_i64` where the source can overflow; the sums of the arena are cut by
-- `u64`. The decimal exponents have no bound in the model, as only inputs near 2^31 reach one.
-- A pointer has 8 bytes. A trap of the interpreter is a result of its own, and so is `lb_trap` of the
-- runtime. The set of fields of a custom `init`, a word in the source, is a function from a bit's number
-- to the bit. A type is the tree that the layout
-- looks at, so that a type that holds itself without a pointer has none.
--
-- Fuel. A scanner's loop has `rounds s`, one more than the length of the text, since each of its rounds
-- takes a byte. The loop of `run` has three rounds for each byte and four more, since a round
-- takes a byte, or ends a raw suite, or settles a pending line start. The loops over closed suites have
-- the indentation width as their fuel, since each round lowers it. The search in the keyword
-- table has the length of the table and one, the loops of `from_bytes` and `span_at` the length
-- of the text and one. `limbs_of` has 3 rounds for a value of 64 bits, `bits_in` one more than the width,
-- and `unescape` the length of the body, since each round takes a byte; `lb_utf8_ok` has a round for
-- each byte.
--
-- Not modelled: the parser, most of the checker, of the interpreter what is not integer arithmetic (floats,
-- integer enums, vectors, text, memory, calls), of the emitter what is not integer arithmetic,
-- packages, of the runtime what stands on the C library (floats, printing, the heap, threads, the
-- host), the driver, and `Diagnostic::format`. Of src/support, `hex_float`, which prints a float for
-- the emitter, and what computes with the host's floats: `parse_float_literal`, `float_display` and
-- `decimal_to_double`. The undefined behaviour of a signed overflow in `scan_escape` is not modelled:
-- the value of an escape is a number without bound there. What `defer` and `errdefer` put off is no
-- part of a run of a custom `init`, as the checker does not walk it.
pub mod Base
pub mod Source
pub mod Support
pub mod Lex
pub mod Tests
pub mod Check
pub mod Emit
pub mod Interp
pub mod Runtime
