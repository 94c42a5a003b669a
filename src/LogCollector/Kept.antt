-- ===== src/LogCollector/Kept.antt =====
-- Which lines `trimLogFile` keeps, and the size that is left.
use Prim.Native.String as Text
use Prim.Native.String.{len}
use mathlib.Core.List.{reverse, reverse-reverse, reverse-cons, append_assoc, append-nil}
use text.Mathlib.TextPositions.{len-append}
use block_chain.Common.{
  ℕ, ◌+◌, ◌≤◌, ◌<◌, String, false, List, [], ◌∷◌, ◌++◌, some, ltb, leb, ◌≡◌, ◌⊎◌, inl, inr, refl,
  sym, ap, ◌∙◌, arith, Bool-cases, leb→le, ltb→lt,
}
use block_chain.LogCollector.Trim.{
  trim_target_bytes, split_lines, join_lines, line_bytes, keep_newest, kept_lines, trim_log_file,
}

not-ltb→le : (a b : ℕ) → ltb a b ≡ false → b ≤ a
not-ltb→le a b h = ground arith

-- The bytes of lines, each with its line end.
abbrev pub total_bytes : List String → ℕ
total_bytes [] = 0
total_bytes (line ∷ lines) = line_bytes line + total_bytes lines

total_bytes-append :
    (xs ys : List String) → total_bytes (xs ++ ys) ≡ total_bytes xs + total_bytes ys
total_bytes-append [] ys = omega arith
total_bytes-append (x ∷ xs) ys = omega (arith, total_bytes-append xs ys)

-- No line could have been kept too: the newest that was dropped does not fit.
abbrev pub IsMaximal : ℕ → List String → List String → Type 0
IsMaximal target dropped kept =
    (dropped ≡ [])
    ⊎ ((front : List String) × (line : String) × (dropped ≡ front ++ line ∷ [])
        × (target < total_bytes kept + line_bytes line))

-- The lines are those that were dropped and then those that are kept, which fit the target.
abbrev pub IsKept : ℕ → List String → List String → Type 0
IsKept target lines kept =
    (dropped : List String) × (lines ≡ dropped ++ kept)
    × (total_bytes kept ≤ target)
    × IsMaximal target dropped kept

keep_newest-IsKept :
    (target : ℕ) (older kept : List String) (bytes : ℕ)
    → bytes ≡ total_bytes kept
    → bytes ≤ target
    → IsKept target (reverse older ++ kept) (keep_newest target older kept bytes)
unfolding keep_newest
keep_newest-IsKept target [] kept bytes e h = ([], refl, omega arith, inl refl)
keep_newest-IsKept target (line ∷ older) kept bytes e h =
    elim (Bool-cases (ltb target (bytes + line_bytes line))) [
      | inl over ↦ rw over (
        reverse (line ∷ older),
        refl,
        omega arith,
        inr (reverse older, line, reverse-cons line older, omega (arith, ltb→lt _ _ over)),
      )
      | inr fits ↦
          let (dropped, same, fit, most) =
            keep_newest-IsKept target older (line ∷ kept) (bytes + line_bytes line) (omega arith)
              (not-ltb→le _ _ fits) in
          let step =
            ap (λ l. l ++ kept) (reverse-cons line older)
            ∙ append_assoc (reverse older) (line ∷ []) kept in
          rw fits (dropped, step ∙ same, fit, most)
    ]

pub kept_lines-IsKept :
    (target : ℕ) (lines : List String) → IsKept target lines (kept_lines target lines)
unfolding kept_lines
kept_lines-IsKept target lines =
    let (dropped, same, fit, most) =
      keep_newest-IsKept target (reverse lines) [] 0 refl (omega arith) in
    let whole = append-nil (reverse (reverse lines)) ∙ reverse-reverse lines in
    (dropped, sym whole ∙ same, fit, most)

len_line : (line : String) → line_bytes line ≡ len line + 1
unfolding line_bytes
len_line line = len-append line "\n"

-- The joined lines take fewer bytes than the lines with their ends.
pub len-join_lines : (lines : List String) → len (join_lines lines) ≤ total_bytes lines
unfolding join_lines
len-join_lines [] = omega arith
len-join_lines (line ∷ []) = omega (arith, len_line line)
len-join_lines (line ∷ next ∷ lines) = omega (
  arith,
  len_line line,
  len-append line (Text.◌++◌ "\n" (join_lines (next ∷ lines))),
  len-append "\n" (join_lines (next ∷ lines)),
  len-join_lines (next ∷ lines),
)

-- What `trimLogFile` leaves of a file: nothing changes up to the limit, and beyond it what is left are
-- the last lines of the text, joined: as many whole lines as fit the target with their line ends.
pub trim_log_file-IsKept :
    (max_size : ℕ) (text : String)
    → ((len text ≤ max_size) × (trim_log_file max_size (some text) ≡ some text))
      ⊎ ((max_size < len text)
          × ((kept : List String) × (trim_log_file max_size (some text) ≡ some (join_lines kept))
              × IsKept trim_target_bytes (split_lines text) kept))
unfolding trim_log_file
trim_log_file-IsKept max_size text = elim (Bool-cases (leb (len text) max_size)) [
  | inl small ↦ inl (leb→le _ _ small, rw small)
  | inr large ↦ inr (
    ground arith,
    (
      kept_lines trim_target_bytes (split_lines text),
      rw large,
      kept_lines-IsKept trim_target_bytes (split_lines text),
    ),
  )
]
