-- ===== src/LogCollector/Trim.antt =====
-- `trimLogFile`, on the text of the file. Sizes are in bytes of UTF-8.
use Prim.Native.Char.{code}
use Prim.Native.String as Text
use Prim.Native.String.{len}
use block_chain.Common.{
  ℕ, ◌+◌, String, List, [], ◌∷◌, Option, none, some, if◌then◌else◌, ltb, leb, ◌==◌,
}
use mathlib.Core.List.{reverse}

abbrev pub max_log_size_bytes : ℕ
max_log_size_bytes = 1048576

-- `Math.floor(MAX_LOG_SIZE_BYTES * 0.6)`.
abbrev pub trim_target_bytes : ℕ
trim_target_bytes = 629145

-- A character in front of the first line.
unfoldable pub extend_first : String → List String → List String
extend_first c [] = c ∷ []
extend_first c (line ∷ lines) = Text.◌++◌ c line ∷ lines

-- `.split("\n")`.
unfoldable pub split_lines : String → List String
unfolding extend_first
split_lines Text.[] = "" ∷ []
split_lines (Text.◌∷◌ c s) =
    let rest = split_lines s in
    if code c == 10 then "" ∷ rest else extend_first (Text.◌∷◌ c "") rest

-- `.join("\n")`.
unfoldable pub join_lines : List String → String
join_lines [] = ""
join_lines (line ∷ []) = line
join_lines (line ∷ next ∷ lines) = Text.◌++◌ line (Text.◌++◌ "\n" (join_lines (next ∷ lines)))

-- `Buffer.byteLength(`${line}\n`, "utf-8")`.
unfoldable pub line_bytes : String → ℕ
line_bytes line = len (Text.◌++◌ line "\n")

-- The loop, over the lines from the newest on: it stops at the first that does not fit.
unfoldable pub keep_newest : ℕ → List String → List String → ℕ → List String
unfolding line_bytes
keep_newest target [] kept kept_bytes = kept
keep_newest target (line ∷ older) kept kept_bytes =
    let rest = keep_newest target older (line ∷ kept) (kept_bytes + line_bytes line) in
    if ltb target (kept_bytes + line_bytes line) then kept else rest

unfoldable pub kept_lines : ℕ → List String → List String
unfolding keep_newest
kept_lines target lines = keep_newest target (reverse lines) [] 0

-- `none` is a file that does not exist.
unfoldable pub trim_log_file : ℕ → Option String → Option String
unfolding split_lines join_lines kept_lines
trim_log_file max_size none = none
trim_log_file max_size (some text) =
    if leb (len text) max_size
    then some text
    else some (join_lines (kept_lines trim_target_bytes (split_lines text)))
