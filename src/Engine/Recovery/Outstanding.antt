-- ===== src/Engine/Recovery/Outstanding.antt =====
-- `Recovery`: outstanding requests are answered by the node or failed, and an id fails once.
use win_wsl_mcp_bridge.Base.{
  ◌≢◌, String, ◌≡◌, Bool, true, false, Option, none, some, All, if_keeps, Option-cases, inl, inr,
  ◌⊎◌,
}
use win_wsl_mcp_bridge.Json.{Json, Key, hash_key}
use win_wsl_mcp_bridge.Json.Keys.{
  contains, find, Unique, update-Unique, drop_key-Unique, update-All, drop_key-All,
}
use win_wsl_mcp_bridge.Engine.Recovery.{Recovery, Ensures, keep, record_sent, remember_sent}
use win_wsl_mcp_bridge.Engine.Recovery.Node.{forget}

-- A stored request is filed under the key of its id.
abbrev pub IsFiled : Key × (Json × Option String) → Type 0
IsFiled (k, entry) = hash_key entry.0 ≡ some k

pub record IsTidy (r : Recovery) : Type 0 where
  pub pending_unique : Unique r.pending
  pub uncertain_unique : Unique r.uncertain
  pub pending_filed : All IsFiled r.pending
  pub uncertain_filed : All IsFiled r.uncertain

-- The node may still answer the request with this key, or the loss of the stream will fail it.
abbrev pub IsOutstanding : Key → Recovery → Type 0
IsOutstanding k r = (find k r.pending ≢ none) ⊎ (find k r.uncertain ≢ none)

record_sent-IsTidy :
    (k : Key) (id : Json) (method : Option String) (current : Bool) (r : Recovery)
    → hash_key id ≡ some k
    → IsTidy r
    → IsTidy (record_sent k id method current r)
unfolding record_sent
record_sent-IsTidy k id method true r h v = record {
  pending_unique = update-Unique k (keep id method) r.pending v.pending_unique;
  uncertain_unique = v.uncertain_unique;
  pending_filed =
      update-All IsFiled k (keep id method) r.pending v.pending_filed h (λ j e filed. filed);
  uncertain_filed = v.uncertain_filed;
}
record_sent-IsTidy k id method false r h v = if_keeps IsTidy (contains k r.failed) r _ v (record {
  pending_unique = v.pending_unique;
  uncertain_unique = update-Unique k (keep id none) r.uncertain v.uncertain_unique;
  pending_filed = v.pending_filed;
  uncertain_filed =
      update-All IsFiled k (keep id none) r.uncertain v.uncertain_filed h (λ j e filed. filed);
})

pub remember_sent-IsTidy :
    (id : Json) (method : Option String) (current : Bool) (r : Recovery)
    → IsTidy r
    → Ensures IsTidy (remember_sent id method current r)
unfolding remember_sent
remember_sent-IsTidy id method current r v = elim (Option-cases (hash_key id)) [
  | inl e ↦ rw (e, remember_sent) tt
  | inr (k, e) ↦ rw (e, remember_sent) (record_sent-IsTidy k id method current r e v)
]

pub forget-IsTidy : (k : Key) (r : Recovery) → IsTidy r → IsTidy (forget k r)
unfolding forget
forget-IsTidy k r v = record {
  pending_unique = drop_key-Unique k r.pending v.pending_unique;
  uncertain_unique = drop_key-Unique k r.uncertain v.uncertain_unique;
  pending_filed = drop_key-All IsFiled k r.pending v.pending_filed;
  uncertain_filed = drop_key-All IsFiled k r.uncertain v.uncertain_filed;
}
