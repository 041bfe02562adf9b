-- ===== src/Evidence/Framer/Fragments.antt =====
-- `LineFramer.feed` over successive calls: where the transport cuts the bytes does not matter.
use mathlib.Core.List.{flatten}
use win_wsl_mcp_bridge.Base.{ℕ, ◌≡◌, refl, List, [], ◌∷◌, ◌++◌, arith}
use win_wsl_mcp_bridge.Evidence.Classify.{CompletedMessage, Item}
use win_wsl_mcp_bridge.Evidence.Framer.{LineFramer, new_framer, feed}
use win_wsl_mcp_bridge.Evidence.Framer.Scan.{
  IsSound, scan, scan-append_state, scan-append_items, scan-IsSound, feed-scan,
}

pub new_framer-IsSound : (n : ℕ) → IsSound (new_framer n)
unfolding new_framer
new_framer-IsSound n = ground arith

module _ (classify : List ℕ → CompletedMessage) where
  -- One call of `feed` for each fragment, with what they emit in order.
  unfoldable pub feed_all : LineFramer → List (List ℕ) → LineFramer × List Item
  feed_all f [] = (f, [])
  feed_all f (chunk ∷ chunks) =
      let (f', items) = feed classify f chunk in
      let (f'', more) = feed_all f' chunks in (f'', items ++ more)

  pub feed-IsSound : (f : LineFramer) (xs : List ℕ) → IsSound f → IsSound (feed classify f xs).0
  feed-IsSound f xs v = rw (feed-scan classify f xs v) (scan-IsSound classify f xs v)

  feed_all-scan :
      (f : LineFramer) (chunks : List (List ℕ))
      → IsSound f
      → feed_all f chunks ≡ scan classify f (flatten chunks)
  unfolding feed_all scan flatten
  feed_all-scan f [] v = refl
  feed_all-scan f (chunk ∷ chunks) v = rw (feed-scan classify f chunk v) ground (
    arith,
    scan-append_state classify f chunk (flatten chunks),
    scan-append_items classify f chunk (flatten chunks),
    feed_all-scan (scan classify f chunk).0 chunks (scan-IsSound classify f chunk v),
  )

  -- However the transport cuts the bytes of a direction into fragments, feeding a sound framer one
  -- fragment after the other ends in the state, and emits the items, of one call on all the bytes.
  pub feed-fragments :
      (f : LineFramer) (chunks : List (List ℕ))
      → IsSound f
      → feed_all f chunks ≡ feed classify f (flatten chunks)
  feed-fragments f chunks v =
      rw (feed-scan classify f (flatten chunks) v) (feed_all-scan f chunks v)
