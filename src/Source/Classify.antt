-- ===== src/Source/Classify.antt =====
-- `is_bidi_control` and `confusable_hint` of src/source/source.cpp.
use luce_seed.Base.{ℕ, Bool, true, ◌||◌, Option, none, some, String, within, ◌==◌, if◌then◌else◌}

unfoldable pub is_bidi_control : ℕ → Bool
is_bidi_control c =
    if c == 0x061C || c == 0x200E || c == 0x200F
    then true
    else if within 0x202A 0x202E c
    then true
    else within 0x2066 0x2069 c

-- What to write instead of a character that looks like another one.
unfoldable pub confusable_hint : ℕ → Option String
confusable_hint c =
    if c == 0x00A0
      || c == 0x1680
      || within 0x2000 0x200A c
      || c == 0x202F
      || c == 0x205F
      || c == 0x3000
    then some "a Unicode space; write an ordinary space"
    else if c == 0x00AD
        || c == 0x034F
        || within 0x200B 0x200D c
        || within 0x2060 0x2064 c
        || c == 0xFEFF
    then some "an invisible character; delete it"
    else if c == 0x00AB || c == 0x00BB || within 0x2018 0x201F c
    then some "a typographic quote; text is written \"like this\""
    else if within 0x2010 0x2015 c || c == 0x2212
    then some "write '-'"
    else if c == 0x00D7
    then some "write '*'"
    else if c == 0x00F7 || c == 0x2215
    then some "write '/'"
    else if c == 0x2260
    then some "write '!='"
    else if c == 0x2264
    then some "write '<='"
    else if c == 0x2265
    then some "write '>='"
    else if c == 0x2192 || c == 0x21D2 || c == 0x27F6
    then some "write '->'"
    else if c == 0xFF08
    then some "write '('"
    else if c == 0xFF09
    then some "write ')'"
    else if c == 0xFF0B
    then some "write '+'"
    else if c == 0xFF0C || c == 0x3001
    then some "write ','"
    else if c == 0xFF1A
    then some "write ':'"
    else if c == 0xFF1D
    then some "write '='"
    else if c == 0x3002
    then some "write '.'"
    else none
