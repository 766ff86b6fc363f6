-- ===== src/Pdeflate/Command/Stream.antt =====
-- The meaning of a command stream: single commands, the bytes that stand for them, and the output
-- that they expand to over a table of repeated entries.
use cozip.Base.{
  ℕ, zero, suc, ◌≤◌, ◌<◌, ◌≡◌, refl, List, [], ◌∷◌, ◌++◌, append_assoc, length, take, drop, get_or,
  ltb, if◌then◌else◌, arith, All, take-append-drop, length-drop, length-take, lt→ltb,
}
use cozip.Pdeflate.Command.{literal_tag, max_cmd_len}
use cozip.Pdeflate.Command.Header.{cmd_header}

pub data Command : Type 0 where
  literal : List ℕ → Command
  reference : ℕ → ℕ → Command

unfoldable pub command_bytes : Command → List ℕ
command_bytes (literal bytes) = cmd_header literal_tag (length bytes) ++ bytes
command_bytes (reference id len) = cmd_header id len

unfoldable pub stream : List Command → List ℕ
stream [] = []
stream (cmd ∷ cmds) = command_bytes cmd ++ stream cmds

-- A command that fits one header; references name one of `ids` table entries.
abbrev pub IsCommand : ℕ → Command → Type 0
IsCommand ids (literal bytes) = (0 < length bytes) × (length bytes ≤ max_cmd_len)
IsCommand ids (reference id len) = (id < ids) × (3 ≤ len) × (len ≤ max_cmd_len)

-- A table row holds `MAX_CMD_LEN` bytes.
abbrev pub IsRow : List ℕ → Type 0
IsRow row = length row ≡ max_cmd_len

unfoldable pub expand : List (List ℕ) → Command → List ℕ
expand table_repeat (literal bytes) = bytes
expand table_repeat (reference id len) = take len (get_or table_repeat id [])

unfoldable pub expand_all : List (List ℕ) → List Command → List ℕ
expand_all table_repeat [] = []
expand_all table_repeat (cmd ∷ cmds) = expand table_repeat cmd ++ expand_all table_repeat cmds

pub stream-append : (xs ys : List Command) → stream (xs ++ ys) ≡ stream xs ++ stream ys
unfolding stream
stream-append [] ys = refl
stream-append (x ∷ xs) ys = simp (stream-append xs ys, append_assoc)

pub expand_all-append :
    (table_repeat : List (List ℕ)) (xs ys : List Command)
    → expand_all table_repeat (xs ++ ys) ≡ expand_all table_repeat xs ++ expand_all table_repeat ys
unfolding expand_all
expand_all-append table_repeat [] ys = refl
expand_all-append table_repeat (x ∷ xs) ys =
    simp (expand_all-append table_repeat xs ys, append_assoc)

-- A run of bytes cut into literals of at most `max_cmd_len`.
unfoldable pub split_literal : ℕ → List ℕ → List Command
split_literal zero bytes = []
split_literal (suc rounds) bytes =
    let more = literal (take max_cmd_len bytes) ∷ split_literal rounds (drop max_cmd_len bytes) in
    if ltb 0 (length bytes) then more else []

pub expand_all-split_literal :
    (table_repeat : List (List ℕ)) (rounds : ℕ) (bytes : List ℕ)
    → length bytes ≤ rounds
    → expand_all table_repeat (split_literal rounds bytes) ≡ bytes
unfolding expand_all expand split_literal
expand_all-split_literal table_repeat zero [] h = refl
expand_all-split_literal table_repeat zero (b ∷ bytes) h = absurd (omega arith)
expand_all-split_literal table_repeat (suc rounds) [] h = refl
expand_all-split_literal table_repeat (suc rounds) (b ∷ bytes) h =
    let rest = drop max_cmd_len (b ∷ bytes) in
    let fits : length rest ≤ rounds = rw (length-drop max_cmd_len (b ∷ bytes)) (omega arith) in
    rw
      (
        lt→ltb 0 (suc (length bytes)) (omega arith),
        expand_all-split_literal table_repeat rounds rest fits,
      )
      (take-append-drop max_cmd_len (b ∷ bytes))

pub split_literal-IsCommand :
    (ids rounds : ℕ) (bytes : List ℕ) → All (IsCommand ids) (split_literal rounds bytes)
unfolding split_literal
split_literal-IsCommand ids zero bytes = tt
split_literal-IsCommand ids (suc rounds) [] = tt
split_literal-IsCommand ids (suc rounds) (b ∷ bytes) =
    rw (lt→ltb 0 (suc (length bytes)) (omega arith)) (
      (
        rw (length-take max_cmd_len (b ∷ bytes)) (omega arith),
        rw (length-take max_cmd_len (b ∷ bytes)) (omega arith),
      ),
      split_literal-IsCommand ids rounds (drop max_cmd_len (b ∷ bytes)),
    )
