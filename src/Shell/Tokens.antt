-- ===== src/Shell/Tokens.antt =====
-- The tokenizer of `Shell::eval_user_input`, src/kernel/Shell.cpp.
use swish_kernel.Prelude.{ℕ, ◌||◌, Bool, List, [], ◌∷◌, ◌++◌, ltb, ◌==◌, if◌then◌else◌, length}
use swish_kernel.Text.{Bytes}

abbrev pub max_args : ℕ
max_args = 16

-- The bytes that a token may have: the buffer has 256, the last for the NUL.
abbrev pub max_token : ℕ
max_token = 255

-- The state of the loop: the words in `args`, and the first `bufIdx` bytes of `buffer`.
pub record Scan : Type 0 where
  pub args : List Bytes
  pub buffer : Bytes

abbrev pub is_break : ℕ → Bool
is_break c = c == b' ' || c == 0

-- The end of a word.
unfoldable pub finish : Scan → Scan
finish s =
    if length s.buffer == 0
    then s
    else if ltb (length s.args) max_args
    then record { args = s.args ++ s.buffer ∷ []; buffer = [] }
    else record { args = s.args; buffer = [] }

-- One round of the loop, on the byte `str[i]`.
unfoldable pub scan : ℕ → Scan → Scan
unfolding finish
scan c s =
    if is_break c
    then finish s
    else if ltb (length s.buffer) max_token
    then record { args = s.args; buffer = s.buffer ++ c ∷ [] }
    else s

unfoldable pub scan_all : Bytes → Scan → Scan
scan_all [] s = s
scan_all (c ∷ str) s = scan_all str (scan c s)

-- The loop runs over the string and the NUL behind it.
unfoldable pub tokens : Bytes → List Bytes
tokens raw = (scan_all (raw ++ 0 ∷ []) (record { args = []; buffer = [] })).args
