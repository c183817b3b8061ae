-- ===== src/Source/Assemble.antt =====
-- `Source::assembled` of src/source/source.cpp: the fragments of a module as one text.
use luce_seed.Base.{
  ℕ, ◌+◌, Bool, true, List, [], ◌∷◌, ◌++◌, String, Bytes, ◌==◌, if◌then◌else◌, not,
}
use luce_seed.Base.Words.{u32}
use luce_seed.Source.Load.{from_bytes}
use luce_seed.Source.Types.{Segment, Source}
use luce_seed.Support.Diagnostics.{DiagnosticBag}

-- `for (char c : text) if (c == '\n') line += 1`
unfoldable pub count_newlines : Bytes → ℕ → ℕ
count_newlines [] line = line
count_newlines (c ∷ text) line = count_newlines text (if c == b'\n' then u32 (line + 1) else line)

-- `text.empty() || text.back() != '\n'`
unfoldable pub lacks_newline : Bytes → Bool
lacks_newline [] = true
lacks_newline (c ∷ []) = not (c == b'\n')
lacks_newline (c ∷ d ∷ text) = lacks_newline (d ∷ text)

-- The loop, over the pairs of a path and a text.
unfoldable pub assemble : List (String × Bytes) → Bytes → List Segment → ℕ → Bytes × List Segment
assemble [] bytes segments line = (bytes, segments)
assemble ((path, text) ∷ rest) bytes segments line =
    let adds = lacks_newline text in
    let after = count_newlines text line in
    assemble rest (bytes ++ (if adds then text ++ b'\n' ∷ [] else text))
      (segments ++ (record { path = path; start_line = line }) ∷ [])
      (if adds then u32 (after + 1) else after)

unfoldable pub assembled_source :
    String → List (String × Bytes) → DiagnosticBag → Source × DiagnosticBag
assembled_source path fragments bag =
    let (bytes, segments) = assemble fragments [] [] 1 in
    let (source, bag') = from_bytes path bytes bag in (record source { segments = segments }, bag')
