-- ===== src/Backend/Tables/Tracked.antt =====
-- `SharedBackend`: the dicts agree after a new request is tracked.
use win_wsl_mcp_bridge.Base.{
  String, Bool, true, false, Option, none, some, ◌≡◌, ◌⊎◌, inl, inr, refl, sym, ◌∙◌, subst, ap,
  arith, eq_iff, text_eq, if◌then◌else◌, Bool-cases, [],
}
use win_wsl_mcp_bridge.Base.Dict
use win_wsl_mcp_bridge.Base.Dict.{lookup-insert}
use win_wsl_mcp_bridge.Base.Pairs
use win_wsl_mcp_bridge.Base.Pairs.{Pair, pair_eq, pair_eq_iff, find-store, store-Unique}
use win_wsl_mcp_bridge.Json.{Json}
use win_wsl_mcp_bridge.Scheduling.Queue.{RoutedRequest}
use win_wsl_mcp_bridge.Backend.State.{Wire}
use win_wsl_mcp_bridge.Backend.Requests.{typed_id, key_of, is_used, note_client, note_token}
use win_wsl_mcp_bridge.Backend.Tables.{Agree, Requests, Addresses, ByClient, Tokens}

-- Nothing agrees with nothing.
pub empty_Agree : (w : Wire) → Agree w [] [] [] []
unfolding Dict.lookup Pairs.find
empty_Agree w = record {
  distinct = tt;
  itself = λ id a e. cc;
  object = λ id e. cc;
  named = λ id r e. cc;
  of_client = λ c t id e. cc;
  entry = λ id c r e f g. cc;
  token = λ t c v e. cc;
}

module _ (w : Wire) where
  abbrev at_key : Option Pair → Pair → Bool
  at_key none q = false
  at_key (some k) q = pair_eq k q

  find-note_client :
      (k : Option Pair) (id : String) (q : Pair) (clients : ByClient)
      → Pairs.find q (note_client w k id clients)
        ≡ (if at_key k q then some id else Pairs.find q clients)
  find-note_client none id q clients = refl
  find-note_client (some k) id q clients = find-store k q id clients

  note_client-Unique :
      (k : Option Pair) (id : String) (clients : ByClient)
      → Pairs.Unique clients
      → Pairs.Unique (note_client w k id clients)
  note_client-Unique none id clients u = u
  note_client-Unique (some k) id clients u = store-Unique k id clients u

  unused :
      (k : Option Pair) (q : Pair) (clients : ByClient)
      → is_used w k clients ≡ false
      → at_key k q ≡ true
      → Pairs.find q clients ≡ none
  unused none q clients e f = cc
  unused (some k) q clients e f =
      let same : k ≡ q = (pair_eq_iff k q).0 f in
      subst (λ x. Pairs.find x clients ≡ none) same (ground arith)

  key_lem :
      (o : Option String) (v : Json) (c t : String)
      → at_key (key_of w o v) (c, t) ≡ true
      → (o ≡ some c) × (typed_id w v ≡ t)
  key_lem none v c t e = cc
  key_lem (some d) v c t e =
      let same : ◌≡◌ {A = Pair} (d, typed_id w v) (c, t) =
        (pair_eq_iff (d, typed_id w v) (c, t)).0 e in
      (ap {A = Pair} (λ q. some q.0) same, ap {A = Pair} (λ q. q.1) same)

  own_key :
      (o : Option String) (v : Json) (c : String)
      → o ≡ some c
      → at_key (key_of w o v) (c, typed_id w v) ≡ true
  own_key none v c e = cc
  own_key (some d) v c e = (pair_eq_iff (d, typed_id w v) (c, typed_id w v)).1 (ground arith)

  noted_token :
      (o : Option String) (token : Option (String × Json)) (tokens : Tokens) (t c : String)
      (v : Json)
      → Dict.lookup t (note_token o token tokens) ≡ some (c, v)
      → ((token ≡ some (t, v)) × (o ≡ some c)) ⊎ (Dict.lookup t tokens ≡ some (c, v))
  noted_token none token tokens t c v e = inr e
  noted_token (some d) none tokens t c v e = inr e
  noted_token (some d) (some (u, x)) tokens t c v e = elim (Bool-cases (text_eq u t)) [
    | inl same ↦
        let entry : ◌≡◌ {A = String × Json} (d, x) (c, v) =
          ground (arith, same, lookup-insert {V = String × Json} u t (d, x) tokens) in
        let own : u ≡ t = (eq_iff u t).0 same in
        inl (
          ground (arith, own, ap {A = String × Json} (λ q. q.1) entry),
          ap {A = String × Json} (λ q. some q.0) entry,
        )
    | inr other ↦ inr (ground (arith, other, lookup-insert {V = String × Json} u t (d, x) tokens))
  ]

  module _ {requests : Requests} {pending : Addresses} {clients : ByClient} {tokens : Tokens}
      (h : Agree w requests pending clients tokens) (p : RoutedRequest)
      (fresh : Dict.lookup p.backend_id requests ≡ none)
      (free : is_used w (key_of w p.client_id p.original_id) clients ≡ false) where
    abbrev pub requests' : Requests
    requests' = Dict.insert p.backend_id p requests

    abbrev pub pending' : Addresses
    pending' = Dict.insert p.backend_id p.backend_id pending

    abbrev pub clients' : ByClient
    clients' = note_client w (key_of w p.client_id p.original_id) p.backend_id clients

    abbrev pub tokens' : Tokens
    tokens' = note_token p.client_id p.progress_token tokens

    -- A pending request is an old one, and stays what it is, or the new one.
    was_pending :
        (id : String)
        → Dict.lookup id pending' ≡ some id
        → (id ≡ p.backend_id)
          ⊎ ((Dict.lookup id pending ≡ some id)
              × (Dict.lookup id requests' ≡ Dict.lookup id requests))
    was_pending id e = elim (Bool-cases (text_eq p.backend_id id)) [
      | inl same ↦ inl (sym ((eq_iff p.backend_id id).0 same))
      | inr other ↦ inr (
        ground (arith, other, lookup-insert p.backend_id id p.backend_id pending),
        ground (arith, other, lookup-insert p.backend_id id p requests),
      )
    ]

    kept_pending :
        (id : String) (r : RoutedRequest)
        → Dict.lookup id pending ≡ some id
        → Dict.lookup id requests ≡ some r
        → (Dict.lookup id pending' ≡ some id) × (Dict.lookup id requests' ≡ some r)
    kept_pending id r e f = elim (Bool-cases (text_eq p.backend_id id)) [
      | inl same ↦
          let own : p.backend_id ≡ id = (eq_iff p.backend_id id).0 same in
          absurd (ground (arith, own, fresh))
      | inr other ↦ (
        ground (arith, other, lookup-insert p.backend_id id p.backend_id pending),
        ground (arith, other, lookup-insert p.backend_id id p requests),
      )
    ]

    new_there :
        (Dict.lookup p.backend_id pending' ≡ some p.backend_id)
        × (Dict.lookup p.backend_id requests' ≡ some p)
    new_there = (
      ground (
        arith,
        eq_iff p.backend_id p.backend_id,
        lookup-insert p.backend_id p.backend_id p.backend_id pending,
      ),
      ground (
        arith,
        eq_iff p.backend_id p.backend_id,
        lookup-insert p.backend_id p.backend_id p requests,
      ),
    )

    object' :
        (id : String)
        → Dict.lookup id pending' ≡ some id
        → (r : RoutedRequest) × (Dict.lookup id requests' ≡ some r)
    object' id e = elim (was_pending id e) [
      | inl own ↦ (p, subst (λ k. Dict.lookup k requests' ≡ some p) (sym own) new_there.1)
      | inr (before, same) ↦ let (r, f) = h.object id before in (r, same ∙ f)
    ]

    of_client' :
        (c t id : String)
        → Pairs.find (c, t) clients' ≡ some id
        → (Dict.lookup id pending' ≡ some id)
          × (r : RoutedRequest) × (Dict.lookup id requests' ≡ some r)
          × (r.client_id ≡ some c)
          × (typed_id w r.original_id ≡ t)
    of_client' c t id e = elim (Bool-cases (at_key (key_of w p.client_id p.original_id) (c, t))) [
      | inl new ↦
          let own : p.backend_id ≡ id = ground (
            arith,
            new,
            find-note_client (key_of w p.client_id p.original_id) p.backend_id (c, t) clients,
          ) in
          let (client, key) = key_lem p.client_id p.original_id c t new in
          (
            subst (λ k. Dict.lookup k pending' ≡ some k) own new_there.0,
            p,
            subst (λ k. Dict.lookup k requests' ≡ some p) own new_there.1,
            client,
            key,
          )
      | inr old ↦
          let before : Pairs.find (c, t) clients ≡ some id = ground (
            arith,
            old,
            find-note_client (key_of w p.client_id p.original_id) p.backend_id (c, t) clients,
          ) in
          let (there, r, f, client, key) = h.of_client c t id before in
          let (there', f') = kept_pending id r there f in (there', r, f', client, key)
    ]

    entry' :
        (id c : String) (r : RoutedRequest)
        → Dict.lookup id pending' ≡ some id
        → Dict.lookup id requests' ≡ some r
        → r.client_id ≡ some c
        → Pairs.find (c, typed_id w r.original_id) clients' ≡ some id
    entry' id c r e f client = elim (was_pending id e) [
      | inl own ↦
          let new : Dict.lookup id requests' ≡ some p =
            subst (λ k. Dict.lookup k requests' ≡ some p) (sym own) new_there.1 in
          let same : p ≡ r = ground (arith, new, f) in
          let client' : p.client_id ≡ some c = ap (λ x. x.client_id) same ∙ client in
          let at = own_key p.client_id p.original_id c client' in
          subst (λ x. Pairs.find (c, typed_id w x.original_id) clients' ≡ some id) same
            (ground (
              arith,
              at,
              own,
              find-note_client (key_of w p.client_id p.original_id) p.backend_id
                  (c, typed_id w p.original_id) clients,
            ))
      | inr (before, same) ↦
          let own : Pairs.find (c, typed_id w r.original_id) clients ≡ some id =
            h.entry id c r before (sym same ∙ f) client in
          elim (Bool-cases
            (at_key (key_of w p.client_id p.original_id) (c, typed_id w r.original_id))) [
              | inl new ↦
                  let missing =
                    unused (key_of w p.client_id p.original_id) (c, typed_id w r.original_id)
                      clients free new in
                  cc
              | inr old ↦ ground (
                arith,
                old,
                own,
                find-note_client (key_of w p.client_id p.original_id) p.backend_id
                    (c, typed_id w r.original_id) clients,
              )
            ]
    ]

    token' :
        (t c : String) (v : Json)
        → Dict.lookup t tokens' ≡ some (c, v)
        → (id : String) × (r : RoutedRequest) × (Dict.lookup id pending' ≡ some id)
          × (Dict.lookup id requests' ≡ some r)
          × (r.progress_token ≡ some (t, v))
          × ((r.client_id ≡ some c) ⊎ (r.client_id ≡ none))
    token' t c v e = elim (noted_token p.client_id p.progress_token tokens t c v e) [
      | inl (own, client) ↦ (p.backend_id, p, new_there.0, new_there.1, own, inl client)
      | inr before ↦
          let (id, r, there, f, own, client) = h.token t c v before in
          let (there', f') = kept_pending id r there f in (id, r, there', f', own, client)
    ]

    named' :
        (id : String) (r : RoutedRequest) → Dict.lookup id requests' ≡ some r → r.backend_id ≡ id
    named' id r e = elim (Bool-cases (text_eq p.backend_id id)) [
      | inl same ↦
          let new : p ≡ r = ground (arith, same, lookup-insert p.backend_id id p requests) in
          sym (ap (λ x. x.backend_id) new) ∙ (eq_iff p.backend_id id).0 same
      | inr other ↦ h.named id r (ground (arith, other, lookup-insert p.backend_id id p requests))
    ]

    pub tracked : Agree w requests' pending' clients' tokens'
    tracked = record {
      distinct =
          note_client-Unique (key_of w p.client_id p.original_id) p.backend_id clients h.distinct;
      itself = λ id a e. ground (
        arith,
        eq_iff p.backend_id id,
        lookup-insert p.backend_id id p.backend_id pending,
        h.itself id a,
      );
      object = object';
      named = named';
      of_client = of_client';
      entry = entry';
      token = token';
    }
