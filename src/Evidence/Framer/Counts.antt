-- ===== src/Evidence/Framer/Counts.antt =====
-- `LineFramer`: what it keeps in memory, what it counts, and the sizes of what it emits.
use win_wsl_mcp_bridge.Base.{
  if◌then◌else◌, ℕ, suc, ◌+◌, ◌≤◌, ◌<◌, ◌≡◌, refl, List, [], ◌∷◌, ◌++◌, length, length-append, All,
  All-append, arith,
}
use mathlib.Core.List.{reverse, reverse-append}
use win_wsl_mcp_bridge.Json.{Json}
use mathlib.Core.Option.{Option}
use win_wsl_mcp_bridge.Evidence.Classify.{
  CompletedMessage, Item, completed, lost, classify_line, classify_line-bytes,
}
use win_wsl_mcp_bridge.Evidence.Framer.{
  LineFramer, feed, strip_front, rstrip_return, emit_line, close,
}
use win_wsl_mcp_bridge.Evidence.Framer.Scan.{
  IsSound, read_byte, scan, scan-IsSound, read_byte-IsSound, feed-scan,
}

-- The lines that were dropped, and their bytes.
abbrev pub losses : List Item → ℕ
losses [] = 0
losses (completed m ∷ items) = losses items
losses (lost l ∷ items) = suc (losses items)

abbrev pub lost_bytes : List Item → ℕ
lost_bytes [] = 0
lost_bytes (completed m ∷ items) = lost_bytes items
lost_bytes (lost l ∷ items) = l.bytes + lost_bytes items

losses-append : (xs ys : List Item) → losses (xs ++ ys) ≡ losses xs + losses ys
losses-append [] ys = omega arith
losses-append (completed m ∷ xs) ys = losses-append xs ys
losses-append (lost l ∷ xs) ys = omega (arith, losses-append xs ys)

lost_bytes-append : (xs ys : List Item) → lost_bytes (xs ++ ys) ≡ lost_bytes xs + lost_bytes ys
lost_bytes-append [] ys = omega arith
lost_bytes-append (completed m ∷ xs) ys = lost_bytes-append xs ys
lost_bytes-append (lost l ∷ xs) ys = omega (arith, lost_bytes-append xs ys)

-- A message's size lies between 1 and the bound; a loss is over the bound.
abbrev pub Fits : ℕ → Item → Type 0
Fits bound (completed m) = (0 < m.message_bytes) × (m.message_bytes ≤ bound)
Fits bound (lost l) = bound < l.bytes

strip_front-length : (xs : List ℕ) → length (strip_front xs) ≤ length xs
unfolding strip_front
strip_front-length [] = omega arith
strip_front-length (x ∷ xs) = ground (arith, strip_front-length xs)

length-reverse : (xs : List ℕ) → length (reverse xs) ≡ length xs
length-reverse [] = refl
length-reverse (x ∷ xs) =
    rw (reverse-append (x ∷ []) xs)
      (omega (arith, length-append {0} (reverse xs) (x ∷ []), length-reverse xs))

rstrip-length : (xs : List ℕ) → length (rstrip_return xs) ≤ length xs
unfolding rstrip_return
rstrip-length xs = omega (
  arith,
  length-reverse (strip_front (reverse xs)),
  strip_front-length (reverse xs),
  length-reverse xs,
)

-- What one call adds to a framer's counters is what the items that it emits say.
pub record Accounts (f g : LineFramer) (items : List Item) : Type 0 where
  pub messages : g.oversized_messages ≡ f.oversized_messages + losses items
  pub bytes : g.oversized_bytes ≡ f.oversized_bytes + lost_bytes items
  pub same_bound : g.max_message_bytes ≡ f.max_message_bytes
  pub same_partial : g.partial_bytes ≡ f.partial_bytes

module _ (classify : List ℕ → CompletedMessage) where
  emit_line-losses : (line : List ℕ) → losses (emit_line classify line) ≡ 0
  unfolding emit_line
  emit_line-losses [] = refl
  emit_line-losses (c ∷ cs) = refl

  emit_line-lost_bytes : (line : List ℕ) → lost_bytes (emit_line classify line) ≡ 0
  unfolding emit_line
  emit_line-lost_bytes [] = refl
  emit_line-lost_bytes (c ∷ cs) = refl

  read_byte-Accounts :
      (f : LineFramer) (c : ℕ) → Accounts f (read_byte classify f c).0 (read_byte classify f c).1
  unfolding read_byte
  read_byte-Accounts f c = ground (
    arith,
    emit_line-losses (rstrip_return f.buffer),
    emit_line-lost_bytes (rstrip_return f.buffer),
  )

  scan-Accounts :
      (f : LineFramer) (xs : List ℕ) → Accounts f (scan classify f xs).0 (scan classify f xs).1
  unfolding scan
  scan-Accounts f [] = omega arith
  scan-Accounts f (c ∷ cs) =
      let (g, items) = read_byte classify f c in
      let more = (scan classify g cs).1 in
      let h = read_byte-Accounts f c in
      let k = scan-Accounts g cs in
      omega (arith, losses-append items more, lost_bytes-append items more)

  -- A sound framer's counters of oversized lines and bytes grow by exactly the losses that a call
  -- of `feed` emits, and its bound and its partial bytes stay.
  pub feed-Accounts :
      (f : LineFramer) (xs : List ℕ)
      → IsSound f
      → Accounts f (feed classify f xs).0 (feed classify f xs).1
  feed-Accounts f xs v = rw (feed-scan classify f xs v) (scan-Accounts f xs)

module _ (loads : List ℕ → Option Json) where
  emit_line-Fits :
      (bound : ℕ) (line : List ℕ)
      → length line ≤ bound
      → All (Fits bound) (emit_line (classify_line loads) line)
  unfolding emit_line
  emit_line-Fits bound [] h = tt
  emit_line-Fits bound (c ∷ cs) h = (
    (
      rw (classify_line-bytes loads (c ∷ cs)) (omega arith),
      rw (classify_line-bytes loads (c ∷ cs)) h,
    ),
    tt,
  )

  read_byte-Fits :
      (f : LineFramer) (c : ℕ)
      → IsSound f
      → All (Fits f.max_message_bytes) (read_byte (classify_line loads) f c).1
  unfolding read_byte
  read_byte-Fits f c v =
      ground
        (arith, emit_line-Fits f.max_message_bytes (rstrip_return f.buffer), rstrip-length f.buffer)

  scan-Fits :
      (f : LineFramer) (xs : List ℕ)
      → IsSound f
      → All (Fits f.max_message_bytes) (scan (classify_line loads) f xs).1
  unfolding scan
  scan-Fits f [] v = tt
  scan-Fits f (c ∷ cs) v =
      let g = (read_byte (classify_line loads) f c).0 in
      let same = (read_byte-Accounts (classify_line loads) f c).same_bound in
      All-append _ _ _ (read_byte-Fits f c v)
        (rw same at (scan-Fits g cs (read_byte-IsSound (classify_line loads) f c v)))

  -- A sound framer emits messages of 1 byte up to its bound, and losses over the bound, and never
  -- holds more than its bound of bytes, whatever arrives.
  pub feed-bounds :
      (f : LineFramer) (xs : List ℕ)
      → IsSound f
      → All (Fits f.max_message_bytes) (feed (classify_line loads) f xs).1
        × (length (feed (classify_line loads) f xs).0.buffer ≤ f.max_message_bytes)
  feed-bounds f xs v = (
    rw (feed-scan (classify_line loads) f xs v) (scan-Fits f xs v),
    rw (feed-scan (classify_line loads) f xs v) (
        omega (
          arith,
          (scan-IsSound (classify_line loads) f xs v).bounded,
          (scan-Accounts (classify_line loads) f xs).same_bound,
        )),
  )

-- Closing a sound direction counts each byte that it still held once: as partial, or as one more
-- oversized line. Nothing is left, and a second call changes nothing.
pub close_lem :
    (f : LineFramer)
    → IsSound f
    → (length (close f).buffer ≡ 0)
      × ((close f).overflow_line_bytes ≡ 0)
      × ((close f).partial_bytes ≡ f.partial_bytes + length f.buffer)
      × ((close f).oversized_bytes ≡ f.oversized_bytes + f.overflow_line_bytes)
      × ((close f).oversized_messages ≡ f.oversized_messages + (if f.overflow then 1 else 0))
      × (close (close f) ≡ close f)
unfolding close
close_lem f v = ground arith
