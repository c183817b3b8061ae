-- ===== src/Source/Position.antt =====
-- `Source::span_at` of src/source/source.cpp: the line and column of a byte offset.
pub mod Agrees
use luce_seed.Base.{
  ℕ, zero, suc, ◌+◌, Bool, true, false, ◌&&◌, none, some, Bytes, length, get_or, ltb, ◌==◌,
  if◌then◌else◌,
}
use luce_seed.Base.Words.{u32}
use luce_seed.Source.Types.{Span, Source}
use luce_seed.Source.Utf8.{utf8_next}

-- The bytes that the loop steps over at `at`, and whether a line ends there.
unfoldable pub stride : Bytes → ℕ → ℕ × Bool
stride bytes at =
    let c = get_or bytes at 0 in
    if c == b'\r'
    then (if ltb (at + 1) (length bytes) && get_or bytes (at + 1) 0 == b'\n' then 2 else 1, true)
    else if c == b'\n'
    then (1, true)
    else (elim (utf8_next bytes at) [ none ↦ 1 | some (width, cp) ↦ width ], false)

-- The loop, with fuel: the line and column reached.
unfoldable pub walk : ℕ → Bytes → ℕ → ℕ → ℕ → ℕ → ℕ × ℕ
walk zero bytes byte at line column = (line, column)
walk (suc fuel) bytes byte at line column =
    let (step, ends) = stride bytes at in
    elim (ltb at byte && ltb at (length bytes)) [
      | true ↦
          walk fuel bytes byte (at + step) (if ends then u32 (line + 1) else line)
            (if ends then 1 else u32 (column + 1))
      | false ↦ (line, column)
    ]

unfoldable pub span_at : Source → ℕ → ℕ → Span
span_at source byte end_byte =
    let (line, column) = walk (suc (length source.bytes)) source.bytes byte source.scan_start 1 1 in
    record { start = u32 byte; end = u32 end_byte; line = line; column = column }
