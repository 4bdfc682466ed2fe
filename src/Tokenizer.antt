-- ===== src/Tokenizer.antt =====
-- src/llm_serving_engine/model/tokenizer.py. A text is its code points. `decode` is the library
-- tokenizer's, a parameter.
pub mod Windows
use llm_serving_engine.Base.{
  ℕ, Bool, false, ◌||◌, Option, none, some, List, [], ◌∷◌, length, drop, leb, ◌==◌, if◌then◌else◌,
  last_or,
}
use llm_serving_engine.Sequence.{slice}

abbrev pub Text : Type 0
Text = List ℕ

-- U+FFFD
abbrev pub incomplete_char : ℕ
incomplete_char = 65533

-- `text.endswith(_INCOMPLETE_CHAR)`
abbrev pub is_held : Text → Bool
is_held [] = false
is_held (c ∷ cs) = last_or c cs == incomplete_char

-- `(prefix_offset, read_offset)`
pub record Window : Type 0 where
  pub prefix : ℕ
  pub read : ℕ

abbrev pub first_window : Window
first_window = record { prefix = 0; read = 0 }

abbrev pub Windows : Type 0
Windows = List (ℕ × Window)

-- `_decode_windows.get(seq_id, (0, 0))`
unfoldable pub window_of : ℕ → Windows → Window
window_of id [] = first_window
window_of id ((j, w) ∷ ws) = if j == id then w else window_of id ws

-- `_decode_windows.pop(seq_id, None)`
unfoldable pub forget : ℕ → Windows → Windows
forget id [] = []
forget id ((j, w) ∷ ws) = let rest = forget id ws in if j == id then rest else (j, w) ∷ rest

abbrev pub store : ℕ → Option Window → Windows → Windows
store id none ws = ws
store id (some w) ws = (id, w) ∷ forget id ws

abbrev pub kept : Window → Option Window → Window
kept w none = w
kept w (some w') = w'

module _ (decode : List ℕ → Text) where
  -- The text that a call emits, and the window that it stores, if any.
  unfoldable pub decode_window : Window → List ℕ → Text × Option Window
  decode_window w tokens =
      let prefix_text = decode (slice tokens w.prefix w.read) in
      let text = decode (drop w.prefix tokens) in
      if leb (length text) (length prefix_text) || is_held text
      then ([], none)
      else (drop (length prefix_text) text, some (record { prefix = w.read; read = length tokens }))

  unfoldable pub decode_incremental : ℕ → List ℕ → Windows → Text × Windows
  unfolding decode_window window_of
  decode_incremental id tokens ws =
      let (text, w) = decode_window (window_of id ws) tokens in (text, store id w ws)
