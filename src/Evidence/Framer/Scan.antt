-- ===== src/Evidence/Framer/Scan.antt =====
-- `LineFramer.feed` against a framer that reads one byte at a time.
use win_wsl_mcp_bridge.Base.{
  ℕ, zero, suc, ◌+◌, ◌≤◌, ◌<◌, ◌≡◌, refl, sym, true, false, none, some, List, [], ◌∷◌, ◌++◌, length,
  length-append, append-nil, append_assoc, ltb, ◌==◌, if◌then◌else◌, arith, Bool-cases,
  Option-cases, inl, inr,
}
use win_wsl_mcp_bridge.Evidence.Classify.{CompletedMessage, Item}
use win_wsl_mcp_bridge.Evidence.Framer.{
  LineFramer, newline, oversized, split_newline, rstrip_return, emit_line, returned, again, cycle,
  feed_loop, feed,
}

-- What holds of a framer between two calls.
pub record IsSound (f : LineFramer) : Type 0 where
  pub bounded : length f.buffer ≤ f.max_message_bytes
  pub dropping : f.overflow ≡ true → f.buffer ≡ []
  pub keeping : f.overflow ≡ false → f.overflow_line_bytes ≡ 0
  pub over : f.overflow ≡ true → f.max_message_bytes < f.overflow_line_bytes

-- A byte inside a line.
unfoldable pub keep_byte : LineFramer → ℕ → LineFramer
keep_byte f c =
    if f.overflow
    then record f { overflow_line_bytes = f.overflow_line_bytes + 1 }
    else (if ltb f.max_message_bytes (length f.buffer + 1)
        then record f { buffer = []; overflow = true; overflow_line_bytes = length f.buffer + 1 }
        else record f { buffer = f.buffer ++ c ∷ [] })

module _ (classify : List ℕ → CompletedMessage) where
  -- The newline that ends a line.
  unfoldable pub end_line : LineFramer → LineFramer × List Item
  end_line f =
      if f.overflow
      then (
        record f {
          overflow = false;
          overflow_line_bytes = 0;
          oversized_messages = f.oversized_messages + 1;
          oversized_bytes = f.oversized_bytes + f.overflow_line_bytes;
        },
        oversized f.overflow_line_bytes ∷ [],
      )
      else (record f { buffer = [] }, emit_line classify (rstrip_return f.buffer))

  unfoldable pub read_byte : LineFramer → ℕ → LineFramer × List Item
  unfolding keep_byte end_line
  read_byte f c = if c == newline then end_line f else (keep_byte f c, [])

  unfoldable pub scan : LineFramer → List ℕ → LineFramer × List Item
  scan f [] = (f, [])
  scan f (c ∷ cs) =
      let (f', items) = read_byte f c in let (f'', more) = scan f' cs in (f'', items ++ more)

  pub scan-append_state :
      (f : LineFramer) (xs ys : List ℕ) → (scan f (xs ++ ys)).0 ≡ (scan (scan f xs).0 ys).0
  unfolding scan
  scan-append_state f [] ys = refl
  scan-append_state f (c ∷ cs) ys = scan-append_state (read_byte f c).0 cs ys

  pub scan-append_items :
      (f : LineFramer) (xs ys : List ℕ)
      → (scan f (xs ++ ys)).1 ≡ (scan f xs).1 ++ (scan (scan f xs).0 ys).1
  unfolding scan
  scan-append_items f [] ys = refl
  scan-append_items f (c ∷ cs) ys =
      rw (scan-append_items (read_byte f c).0 cs ys) (sym (append_assoc (read_byte f c).1 _ _))

  pub read_byte-IsSound : (f : LineFramer) (c : ℕ) → IsSound f → IsSound (read_byte f c).0
  unfolding read_byte
  read_byte-IsSound f c v = ground (arith, length-append {0} f.buffer (c ∷ []))

  pub scan-IsSound : (f : LineFramer) (xs : List ℕ) → IsSound f → IsSound (scan f xs).0
  unfolding scan
  scan-IsSound f [] v = v
  scan-IsSound f (c ∷ cs) v = scan-IsSound (read_byte f c).0 cs (read_byte-IsSound f c v)

-- A framer after bytes that hold no newline, in one step.
keep_bytes : LineFramer → List ℕ → LineFramer
keep_bytes f xs =
    if f.overflow
    then record f { overflow_line_bytes = f.overflow_line_bytes + length xs }
    else (if ltb f.max_message_bytes (length f.buffer + length xs)
        then record f {
          buffer = [];
          overflow = true;
          overflow_line_bytes = length f.buffer + length xs;
        }
        else record f { buffer = f.buffer ++ xs })

keep_bytes-nil : (f : LineFramer) → IsSound f → keep_bytes f [] ≡ f
unfolding keep_bytes
keep_bytes-nil f v = ground (arith, append-nil f.buffer)

keep_bytes-cons :
    (f : LineFramer) (c : ℕ) (cs : List ℕ)
    → IsSound f
    → keep_bytes f (c ∷ cs) ≡ keep_bytes (keep_byte f c) cs
unfolding keep_bytes keep_byte
keep_bytes-cons f c cs v =
    ground (arith, length-append {0} f.buffer (c ∷ []), append_assoc f.buffer (c ∷ []) cs)

split-length : (xs ys : List ℕ) → (split_newline xs).1 ≡ some ys → length ys < length xs
unfolding split_newline
split-length [] ys h = ground arith
split-length (x ∷ xs) ys h = ground (arith, split-length xs ys)

module _ (classify : List ℕ → CompletedMessage) where
  read_byte-newline :
      (f : LineFramer) (c : ℕ)
      → (c == newline) ≡ true
      → read_byte classify f c ≡ end_line classify f
  unfolding read_byte
  read_byte-newline f c h = rw h

  read_byte-other :
      (f : LineFramer) (c : ℕ)
      → (c == newline) ≡ false
      → read_byte classify f c ≡ (keep_byte f c, [])
  unfolding read_byte
  read_byte-other f c h = rw h

  keep_byte-IsSound :
      (f : LineFramer) (c : ℕ) → (c == newline) ≡ false → IsSound f → IsSound (keep_byte f c)
  keep_byte-IsSound f c h v = rw (read_byte-other f c h) at (read_byte-IsSound classify f c v)

  scan-unended :
      (xs : List ℕ) (f : LineFramer)
      → IsSound f
      → (split_newline xs).1 ≡ none
      → scan classify f xs ≡ (keep_bytes f (split_newline xs).0, [])
  unfolding scan split_newline
  scan-unended [] f v h = ground (arith, keep_bytes-nil f v)
  scan-unended (x ∷ xs) f v h = elim (Bool-cases (x == newline)) [
    | inl e ↦ ground arith
    | inr e ↦ ground (
      arith,
      read_byte-other f x e,
      keep_bytes-cons f x (split_newline xs).0 v,
      scan-unended xs (keep_byte f x) (keep_byte-IsSound f x e v),
    )
  ]

  scan-ended :
      (xs ys : List ℕ) (f : LineFramer)
      → IsSound f
      → (split_newline xs).1 ≡ some ys
      → let (f', items) = end_line classify (keep_bytes f (split_newline xs).0) in
        scan classify f xs ≡ ((scan classify f' ys).0, items ++ (scan classify f' ys).1)
  unfolding scan split_newline
  scan-ended [] ys f v h = ground arith
  scan-ended (x ∷ xs) ys f v h = elim (Bool-cases (x == newline)) [
    | inl e ↦ ground (arith, read_byte-newline f x e, keep_bytes-nil f v)
    | inr e ↦ ground (
      arith,
      read_byte-other f x e,
      keep_bytes-cons f x (split_newline xs).0 v,
      scan-ended xs ys (keep_byte f x) (keep_byte-IsSound f x e v),
    )
  ]

  cycle-unended :
      (f : LineFramer) (xs : List ℕ)
      → (split_newline xs).1 ≡ none
      → cycle classify f xs ≡ returned (keep_bytes f (split_newline xs).0)
  unfolding cycle keep_bytes
  cycle-unended f xs h = ground arith

  cycle-ended :
      (f : LineFramer) (xs ys : List ℕ)
      → IsSound f
      → (split_newline xs).1 ≡ some ys
      → let (f', items) = end_line classify (keep_bytes f (split_newline xs).0) in
        cycle classify f xs ≡ again f' items ys
  unfolding cycle keep_bytes end_line
  cycle-ended f xs ys v h = ground arith

  end_line-IsSound : (f : LineFramer) → IsSound f → IsSound (end_line classify f).0
  end_line-IsSound f v =
      rw (read_byte-newline f newline refl) at (read_byte-IsSound classify f newline v)

  keep_bytes-IsSound : (f : LineFramer) (xs : List ℕ) → IsSound f → IsSound (keep_bytes f xs)
  unfolding keep_bytes
  keep_bytes-IsSound f xs v = ground (arith, length-append {0} f.buffer xs)

  feed_loop-scan :
      (fuel : ℕ) (f : LineFramer) (emitted : List Item) (xs : List ℕ)
      → IsSound f
      → length xs < fuel
      → feed_loop classify fuel f emitted xs
        ≡ ((scan classify f xs).0, emitted ++ (scan classify f xs).1)
  unfolding feed_loop
  feed_loop-scan zero f emitted xs v h = elim h [ ]
  feed_loop-scan (suc fuel) f emitted xs v h = elim (Option-cases (split_newline xs).1) [
    | inl e ↦ rw (cycle-unended f xs e, feed_loop, scan-unended xs f v e, append-nil emitted)
    | inr (ys, e) ↦
        let f' = keep_bytes f (split_newline xs).0 in
        let w = end_line-IsSound f' (keep_bytes-IsSound f (split_newline xs).0 v) in
        let (g, items) = end_line classify f' in
        rw (cycle-ended f xs ys v e, feed_loop, scan-ended xs ys f v e)
          (ground (
            arith,
            split-length xs ys e,
            feed_loop-scan fuel g (emitted ++ items) ys w (omega (arith, split-length xs ys e)),
            append_assoc emitted items (scan classify g ys).1,
          ))
  ]

  -- On a sound framer, the loop over newline positions does what reading byte by byte does.
  pub feed-scan :
      (f : LineFramer) (xs : List ℕ) → IsSound f → feed classify f xs ≡ scan classify f xs
  unfolding feed scan
  feed-scan f [] v = refl
  feed-scan f (c ∷ cs) v = feed_loop-scan (suc (suc (length cs))) f [] (c ∷ cs) v (omega arith)
