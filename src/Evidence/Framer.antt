-- ===== src/Evidence/Framer.antt =====
-- stream_evidence.py: `LineFramer`, the bounded incremental framer of one direction. A byte is a
-- number, and 10 and 13 are the newline and the carriage return.
pub mod Scan
pub mod Fragments
pub mod Counts
use win_wsl_mcp_bridge.Base.{
  ℕ, zero, suc, ◌+◌, ◌-◌, ◌≡◌, refl, Bool, true, false, Option, none, some, List, [], ◌∷◌, ◌++◌,
  length, ltb, ◌==◌, if◌then◌else◌, String,
}
use mathlib.Core.List.{reverse}
use win_wsl_mcp_bridge.Json.{Json}
use win_wsl_mcp_bridge.Evidence.Classify.{
  CompletedMessage, FramingLoss, Item, completed, lost, classify_line,
}

abbrev pub newline : ℕ
newline = 10

abbrev pub carriage_return : ℕ
carriage_return = 13

abbrev pub lost_oversized_line : String
lost_oversized_line = "oversized-line"

pub record LineFramer : Type 0 where
  pub max_message_bytes : ℕ
  pub buffer : List ℕ
  pub overflow : Bool
  pub overflow_line_bytes : ℕ
  pub oversized_messages : ℕ
  pub oversized_bytes : ℕ
  pub partial_bytes : ℕ

abbrev pub default_max_message_bytes : ℕ
default_max_message_bytes = 262144

-- The bound is never below 1024.
unfoldable pub new_framer : ℕ → LineFramer
new_framer max_message_bytes = record {
  max_message_bytes = if ltb max_message_bytes 1024 then 1024 else max_message_bytes;
  buffer = [];
  overflow = false;
  overflow_line_bytes = 0;
  oversized_messages = 0;
  oversized_bytes = 0;
  partial_bytes = 0;
}

-- `data.find(b"\n")`: what stands before the first newline, and what stands behind it if there
-- is one.
unfoldable pub split_newline : List ℕ → List ℕ × Option (List ℕ)
split_newline [] = ([], none)
split_newline (c ∷ rest) =
    let (before, after) = split_newline rest in
    if c == newline then ([], some rest) else (c ∷ before, after)

strip_front : List ℕ → List ℕ
strip_front [] = []
strip_front (c ∷ cs) = if c == carriage_return then strip_front cs else c ∷ cs

-- `line.rstrip(b"\r")`
unfoldable pub rstrip_return : List ℕ → List ℕ
unfolding strip_front
rstrip_return line = reverse (strip_front (reverse line))

abbrev pub oversized : ℕ → Item
oversized n = lost (record { reason = lost_oversized_line; bytes = n })

-- One round of the loop ends the call, or goes round with what it emitted and the rest of the data.
pub data Cycle : Type 0 where
  returned : LineFramer → Cycle
  again : LineFramer → List Item → List ℕ → Cycle

-- Dropping the tail of an oversized line until its terminator.
unfoldable pub cycle_overflow : LineFramer → List ℕ × Option (List ℕ) → Cycle
cycle_overflow f (before, none) =
    returned (record f { overflow_line_bytes = f.overflow_line_bytes + length before })
cycle_overflow f (before, some after) =
    let total = f.overflow_line_bytes + length before in
    again
      (record f {
        overflow = false;
        overflow_line_bytes = 0;
        oversized_messages = f.oversized_messages + 1;
        oversized_bytes = f.oversized_bytes + total;
      })
      (oversized total ∷ []) after

-- `_classify_line` stands for any function of the line here.
module _ (classify : List ℕ → CompletedMessage) where
  -- `if line: emitted.append(_classify_line(line))`
  unfoldable pub emit_line : List ℕ → List Item
  emit_line [] = []
  emit_line (c ∷ cs) = completed (classify (c ∷ cs)) ∷ []

  unfoldable pub cycle_line : LineFramer → List ℕ × Option (List ℕ) → Cycle
  cycle_line f (before, none) =
      let size = length f.buffer + length before in
      returned (
        if ltb f.max_message_bytes size
        then record f { buffer = []; overflow = true; overflow_line_bytes = size }
        else record f { buffer = f.buffer ++ before })
  cycle_line f (before, some after) =
      let line_length = length f.buffer + length before in
      if ltb f.max_message_bytes line_length
      then again
          (record f {
            buffer = [];
            oversized_messages = f.oversized_messages + 1;
            oversized_bytes = f.oversized_bytes + line_length;
          })
          (oversized line_length ∷ []) after
      else again (record f { buffer = [] }) (emit_line (rstrip_return (f.buffer ++ before))) after

  unfoldable pub cycle : LineFramer → List ℕ → Cycle
  unfolding cycle_overflow cycle_line
  cycle f rest =
      if f.overflow
      then cycle_overflow f (split_newline rest)
      else cycle_line f (split_newline rest)

  -- Every round that goes on takes a newline off the data, so one more round than bytes is enough.
  unfoldable pub feed_loop : ℕ → LineFramer → List Item → List ℕ → LineFramer × List Item
  feed_loop zero f emitted rest = (f, emitted)
  feed_loop (suc fuel) f emitted rest = elim (cycle f rest) [
    | returned f' ↦ (f', emitted)
    | again f' items after ↦ feed_loop fuel f' (emitted ++ items) after
  ]

  unfoldable pub feed : LineFramer → List ℕ → LineFramer × List Item
  unfolding feed_loop cycle emit_line split_newline rstrip_return
  feed f [] = (f, [])
  feed f (c ∷ cs) = feed_loop (suc (suc (length cs))) f [] (c ∷ cs)

-- `if self._buffer:` and `if self._overflow_line_bytes:`
abbrev pub is_empty {ℓ} : {A : Type ℓ} → List A → Bool
is_empty [] = true
is_empty (x ∷ xs) = false

unfoldable pub close_overflow : LineFramer → LineFramer
close_overflow f = if f.overflow_line_bytes == 0 then f else record f {
  overflow = false;
  overflow_line_bytes = 0;
  oversized_messages = f.oversized_messages + 1;
  oversized_bytes = f.oversized_bytes + f.overflow_line_bytes;
}

-- A partial line is only counted.
unfoldable pub close : LineFramer → LineFramer
unfolding close_overflow
close f = close_overflow (
    if is_empty f.buffer
    then f
    else record f { buffer = []; partial_bytes = f.partial_bytes + length f.buffer })
