-- ===== src/Lex/Token.antt =====
-- The token kinds of src/lex/token.h, a token, and the printed names of src/lex/token.cpp.
use luce_seed.Base.{ℕ, Bool, String, Bytes, within}
use luce_seed.Source.Types.{Span}

pub data TokenKind : Type 0 where
  end_of_file newline indent dedent raw_line name int_lit float_lit char_lit string_lit : TokenKind
  bytes_lit format_start format_text format_end doc_comment underscore kw_and kw_as : TokenKind
  kw_asm kw_break kw_catch kw_const kw_continue kw_defer kw_elif kw_else kw_enum : TokenKind
  kw_errdefer kw_extern kw_false kw_for kw_free kw_from kw_func kw_if kw_import : TokenKind
  kw_in kw_interface kw_let kw_match kw_new kw_none kw_not kw_or kw_pub kw_recover : TokenKind
  kw_return kw_self kw_static kw_struct kw_test kw_true kw_try kw_type kw_union : TokenKind
  kw_var kw_volatile kw_while kw_with l_paren r_paren l_bracket r_bracket l_brace : TokenKind
  r_brace comma colon dot question bang at plus minus star slash percent amp pipe : TokenKind
  caret tilde lt gt eq arrow fat_arrow eq_eq not_eq lt_eq gt_eq slash_slash dot_dot : TokenKind
  dot_dot_lt dot_dot_eq lt_lt gt_gt plus_eq minus_eq star_eq slash_eq slash_slash_eq : TokenKind
  percent_eq amp_eq pipe_eq caret_eq lt_lt_eq gt_gt_eq plus_percent minus_percent : TokenKind
  star_percent plus_pipe minus_pipe star_pipe plus_question minus_question star_question : TokenKind
  plus_percent_eq minus_percent_eq star_percent_eq plus_pipe_eq minus_pipe_eq star_pipe_eq :
      TokenKind
  dash_dash_dash dot_dot_dot : TokenKind

pub record Token : Type 0 where
  pub kind : TokenKind
  pub span : Span
  pub text : Bytes
  pub suffix : Bytes

-- `token_kind_name`
unfoldable pub token_kind_name : TokenKind → String
token_kind_name end_of_file = "eof"
token_kind_name newline = "newline"
token_kind_name indent = "indent"
token_kind_name dedent = "dedent"
token_kind_name raw_line = "raw"
token_kind_name name = "name"
token_kind_name int_lit = "int"
token_kind_name float_lit = "float"
token_kind_name char_lit = "char"
token_kind_name string_lit = "string"
token_kind_name bytes_lit = "bytes"
token_kind_name format_start = "format_start"
token_kind_name format_text = "format_text"
token_kind_name format_end = "format_end"
token_kind_name doc_comment = "doc"
token_kind_name underscore = "_"
token_kind_name kw_and = "and"
token_kind_name kw_as = "as"
token_kind_name kw_asm = "asm"
token_kind_name kw_break = "break"
token_kind_name kw_catch = "catch"
token_kind_name kw_const = "const"
token_kind_name kw_continue = "continue"
token_kind_name kw_defer = "defer"
token_kind_name kw_elif = "elif"
token_kind_name kw_else = "else"
token_kind_name kw_enum = "enum"
token_kind_name kw_errdefer = "errdefer"
token_kind_name kw_extern = "extern"
token_kind_name kw_false = "false"
token_kind_name kw_for = "for"
token_kind_name kw_free = "free"
token_kind_name kw_from = "from"
token_kind_name kw_func = "func"
token_kind_name kw_if = "if"
token_kind_name kw_import = "import"
token_kind_name kw_in = "in"
token_kind_name kw_interface = "interface"
token_kind_name kw_let = "let"
token_kind_name kw_match = "match"
token_kind_name kw_new = "new"
token_kind_name kw_none = "none"
token_kind_name kw_not = "not"
token_kind_name kw_or = "or"
token_kind_name kw_pub = "pub"
token_kind_name kw_recover = "recover"
token_kind_name kw_return = "return"
token_kind_name kw_self = "self"
token_kind_name kw_static = "static"
token_kind_name kw_struct = "struct"
token_kind_name kw_test = "test"
token_kind_name kw_true = "true"
token_kind_name kw_try = "try"
token_kind_name kw_type = "type"
token_kind_name kw_union = "union"
token_kind_name kw_var = "var"
token_kind_name kw_volatile = "volatile"
token_kind_name kw_while = "while"
token_kind_name kw_with = "with"
token_kind_name l_paren = "("
token_kind_name r_paren = ")"
token_kind_name l_bracket = "["
token_kind_name r_bracket = "]"
token_kind_name l_brace = "{"
token_kind_name r_brace = "}"
token_kind_name comma = ","
token_kind_name colon = ":"
token_kind_name dot = "."
token_kind_name question = "?"
token_kind_name bang = "!"
token_kind_name at = "@"
token_kind_name plus = "+"
token_kind_name minus = "-"
token_kind_name star = "*"
token_kind_name slash = "/"
token_kind_name percent = "%"
token_kind_name amp = "&"
token_kind_name pipe = "|"
token_kind_name caret = "^"
token_kind_name tilde = "~"
token_kind_name lt = "<"
token_kind_name gt = ">"
token_kind_name eq = "="
token_kind_name arrow = "->"
token_kind_name fat_arrow = "=>"
token_kind_name eq_eq = "=="
token_kind_name not_eq = "!="
token_kind_name lt_eq = "<="
token_kind_name gt_eq = ">="
token_kind_name slash_slash = "//"
token_kind_name dot_dot = ".."
token_kind_name dot_dot_lt = "..<"
token_kind_name dot_dot_eq = "..="
token_kind_name lt_lt = "<<"
token_kind_name gt_gt = ">>"
token_kind_name plus_eq = "+="
token_kind_name minus_eq = "-="
token_kind_name star_eq = "*="
token_kind_name slash_eq = "/="
token_kind_name slash_slash_eq = "//="
token_kind_name percent_eq = "%="
token_kind_name amp_eq = "&="
token_kind_name pipe_eq = "|="
token_kind_name caret_eq = "^="
token_kind_name lt_lt_eq = "<<="
token_kind_name gt_gt_eq = ">>="
token_kind_name plus_percent = "+%"
token_kind_name minus_percent = "-%"
token_kind_name star_percent = "*%"
token_kind_name plus_pipe = "+|"
token_kind_name minus_pipe = "-|"
token_kind_name star_pipe = "*|"
token_kind_name plus_question = "+?"
token_kind_name minus_question = "-?"
token_kind_name star_question = "*?"
token_kind_name plus_percent_eq = "+%="
token_kind_name minus_percent_eq = "-%="
token_kind_name star_percent_eq = "*%="
token_kind_name plus_pipe_eq = "+|="
token_kind_name minus_pipe_eq = "-|="
token_kind_name star_pipe_eq = "*|="
token_kind_name dash_dash_dash = "---"
token_kind_name dot_dot_dot = "..."

-- The enumerator's value: its place in the declaration.
unfoldable pub ordinal : TokenKind → ℕ
ordinal end_of_file = 0
ordinal newline = 1
ordinal indent = 2
ordinal dedent = 3
ordinal raw_line = 4
ordinal name = 5
ordinal int_lit = 6
ordinal float_lit = 7
ordinal char_lit = 8
ordinal string_lit = 9
ordinal bytes_lit = 10
ordinal format_start = 11
ordinal format_text = 12
ordinal format_end = 13
ordinal doc_comment = 14
ordinal underscore = 15
ordinal kw_and = 16
ordinal kw_as = 17
ordinal kw_asm = 18
ordinal kw_break = 19
ordinal kw_catch = 20
ordinal kw_const = 21
ordinal kw_continue = 22
ordinal kw_defer = 23
ordinal kw_elif = 24
ordinal kw_else = 25
ordinal kw_enum = 26
ordinal kw_errdefer = 27
ordinal kw_extern = 28
ordinal kw_false = 29
ordinal kw_for = 30
ordinal kw_free = 31
ordinal kw_from = 32
ordinal kw_func = 33
ordinal kw_if = 34
ordinal kw_import = 35
ordinal kw_in = 36
ordinal kw_interface = 37
ordinal kw_let = 38
ordinal kw_match = 39
ordinal kw_new = 40
ordinal kw_none = 41
ordinal kw_not = 42
ordinal kw_or = 43
ordinal kw_pub = 44
ordinal kw_recover = 45
ordinal kw_return = 46
ordinal kw_self = 47
ordinal kw_static = 48
ordinal kw_struct = 49
ordinal kw_test = 50
ordinal kw_true = 51
ordinal kw_try = 52
ordinal kw_type = 53
ordinal kw_union = 54
ordinal kw_var = 55
ordinal kw_volatile = 56
ordinal kw_while = 57
ordinal kw_with = 58
ordinal l_paren = 59
ordinal r_paren = 60
ordinal l_bracket = 61
ordinal r_bracket = 62
ordinal l_brace = 63
ordinal r_brace = 64
ordinal comma = 65
ordinal colon = 66
ordinal dot = 67
ordinal question = 68
ordinal bang = 69
ordinal at = 70
ordinal plus = 71
ordinal minus = 72
ordinal star = 73
ordinal slash = 74
ordinal percent = 75
ordinal amp = 76
ordinal pipe = 77
ordinal caret = 78
ordinal tilde = 79
ordinal lt = 80
ordinal gt = 81
ordinal eq = 82
ordinal arrow = 83
ordinal fat_arrow = 84
ordinal eq_eq = 85
ordinal not_eq = 86
ordinal lt_eq = 87
ordinal gt_eq = 88
ordinal slash_slash = 89
ordinal dot_dot = 90
ordinal dot_dot_lt = 91
ordinal dot_dot_eq = 92
ordinal lt_lt = 93
ordinal gt_gt = 94
ordinal plus_eq = 95
ordinal minus_eq = 96
ordinal star_eq = 97
ordinal slash_eq = 98
ordinal slash_slash_eq = 99
ordinal percent_eq = 100
ordinal amp_eq = 101
ordinal pipe_eq = 102
ordinal caret_eq = 103
ordinal lt_lt_eq = 104
ordinal gt_gt_eq = 105
ordinal plus_percent = 106
ordinal minus_percent = 107
ordinal star_percent = 108
ordinal plus_pipe = 109
ordinal minus_pipe = 110
ordinal star_pipe = 111
ordinal plus_question = 112
ordinal minus_question = 113
ordinal star_question = 114
ordinal plus_percent_eq = 115
ordinal minus_percent_eq = 116
ordinal star_percent_eq = 117
ordinal plus_pipe_eq = 118
ordinal minus_pipe_eq = 119
ordinal star_pipe_eq = 120
ordinal dash_dash_dash = 121
ordinal dot_dot_dot = 122

-- `kind >= TokenKind::KwAnd && kind <= TokenKind::KwWith`
unfoldable pub is_keyword : TokenKind → Bool
unfolding ordinal
is_keyword kind = within (ordinal kw_and) (ordinal kw_with) (ordinal kind)
