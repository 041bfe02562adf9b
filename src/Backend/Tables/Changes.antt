-- ===== src/Backend/Tables/Changes.antt =====
-- `SharedBackend`: the dicts agree after a request is tracked, and after one loses its flag or its client.
use win_wsl_mcp_bridge.Base.{
  String, true, Option, none, some, ◌≡◌, ◌⊎◌, inl, inr, refl, sym, ◌∙◌, subst, ap, arith, eq_iff,
  text_eq, Bool-cases,
}
use win_wsl_mcp_bridge.Base.Dict
use win_wsl_mcp_bridge.Base.Dict.{lookup-insert, lookup-pop}
use win_wsl_mcp_bridge.Base.Pairs
use win_wsl_mcp_bridge.Base.Pairs.{Pair, pair_eq, pair_eq_iff, find-pop, pop-Unique}
use win_wsl_mcp_bridge.Scheduling.Queue.{RoutedRequest}
use win_wsl_mcp_bridge.Backend.State.{Wire}
use win_wsl_mcp_bridge.Backend.Requests.{typed_id}
use win_wsl_mcp_bridge.Backend.Tables.{Agree, Like, Requests, Addresses, ByClient, Tokens}

module _ (w : Wire) {requests : Requests} {pending : Addresses} {clients : ByClient}
    {tokens : Tokens} (h : Agree w requests pending clients tokens) where
  -- A new object under an old id, with the same parts.
  module _ (p p' : RoutedRequest) (l : Like w p requests) (same_id : p'.backend_id ≡ p.backend_id)
      (same_original : p'.original_id ≡ p.original_id)
      (same_token : p'.progress_token ≡ p.progress_token) where
    abbrev rewritten : Requests
    rewritten = Dict.insert p.backend_id p' requests

    stored_at :
        (id : String) (r : RoutedRequest)
        → Dict.lookup id requests ≡ some r
        → (r' : RoutedRequest) × (Dict.lookup id rewritten ≡ some r')
          × (r'.original_id ≡ r.original_id)
          × (r'.progress_token ≡ r.progress_token)
          × ((r'.client_id ≡ r.client_id)
              ⊎ ((id ≡ p.backend_id) × (r'.client_id ≡ p'.client_id) × (r.client_id ≡ p.client_id)))
    stored_at id r e = elim (Bool-cases (text_eq p.backend_id id)) [
      | inl same ↦
          let own : p.backend_id ≡ id = (eq_iff p.backend_id id).0 same in
          let stored : l.stored ≡ r = ground (arith, l.is_stored) in
          (
            p',
            ground (arith, same, lookup-insert p.backend_id id p' requests),
            same_original ∙ sym l.same_original ∙ ap (λ x. x.original_id) stored,
            same_token ∙ sym l.same_token ∙ ap (λ x. x.progress_token) stored,
            inr (sym own, refl, sym (ap (λ x. x.client_id) stored) ∙ l.same_client),
          )
      | inr other ↦ (
        r,
        ground (arith, other, lookup-insert p.backend_id id p' requests),
        refl,
        refl,
        inl refl,
      )
    ]

    was_at :
        (id : String) (r' : RoutedRequest)
        → Dict.lookup id rewritten ≡ some r'
        → (r : RoutedRequest) × (Dict.lookup id requests ≡ some r)
          × (r'.original_id ≡ r.original_id)
          × (r'.backend_id ≡ id)
          × ((r'.client_id ≡ r.client_id)
              ⊎ ((id ≡ p.backend_id) × (r'.client_id ≡ p'.client_id) × (r.client_id ≡ p.client_id)))
    was_at id r' e = elim (Bool-cases (text_eq p.backend_id id)) [
      | inl same ↦
          let own : p.backend_id ≡ id = (eq_iff p.backend_id id).0 same in
          let new : p' ≡ r' = ground (arith, same, lookup-insert p.backend_id id p' requests) in
          (
            l.stored,
            subst (λ k. Dict.lookup k requests ≡ some l.stored) own l.is_stored,
            sym (ap (λ x. x.original_id) new) ∙ same_original ∙ sym l.same_original,
            sym (ap (λ x. x.backend_id) new) ∙ same_id ∙ own,
            inr (sym own, sym (ap (λ x. x.client_id) new), l.same_client),
          )
      | inr other ↦
          let old : Dict.lookup id requests ≡ some r' =
            ground (arith, other, lookup-insert p.backend_id id p' requests) in
          (r', old, refl, h.named id r' old, inl refl)
    ]

    same_of :
        {a b c d : Option String} {id k : String}
        → d ≡ c
        → (a ≡ b) ⊎ ((id ≡ k) × (a ≡ d) × (b ≡ c))
        → a ≡ b
    same_of e (inl f) = f
    same_of e (inr (i, f, g)) = f ∙ e ∙ sym g

    still_of :
        {a b : Option String} {c : String}
        → a ≡ b
        → (b ≡ some c) ⊎ (b ≡ none)
        → (a ≡ some c) ⊎ (a ≡ none)
    still_of e (inl f) = inl (e ∙ f)
    still_of e (inr f) = inr (e ∙ f)

    -- The object keeps its client.
    pub relabelled : p'.client_id ≡ p.client_id → Agree w rewritten pending clients tokens
    relabelled kept = record {
      distinct = h.distinct;
      itself = h.itself;
      object = λ id e.
          let (r, f) = h.object id e in let (r', f', _, _, _) = stored_at id r f in (r', f');
      named = λ id r' e. (was_at id r' e).3;
      of_client = λ c t id e.
          let (there, r, f, client, key) = h.of_client c t id e in
          let (r', f', o, _, k) = stored_at id r f in
          (there, r', f', same_of kept k ∙ client, ap (λ v. typed_id w v) o ∙ key);
      entry = λ id c r' there e client.
          let (r, f, o, _, k) = was_at id r' e in
          subst (λ v. Pairs.find (c, typed_id w v) clients ≡ some id) (sym o)
            (h.entry id c r there f (sym (same_of kept k) ∙ client));
      token = λ t c v e.
          let (id, r, there, f, own, client) = h.token t c v e in
          let (r', f', _, o, k) = stored_at id r f in
          (id, r', there, f', o ∙ own, still_of (same_of kept k) client);
    }

    -- What the object's client is where it changed.
    none_of :
        {a b d c : Option String} {id k : String}
        → d ≡ none
        → (a ≡ b) ⊎ ((id ≡ k) × (a ≡ d) × (b ≡ c))
        → (a ≡ b) ⊎ ((id ≡ k) × (a ≡ none))
    none_of e (inl f) = inl f
    none_of e (inr (i, f, g)) = inr (i, f ∙ e)

    bereft :
        {a b : Option String} {id k c : String}
        → (a ≡ b) ⊎ ((id ≡ k) × (a ≡ none))
        → (b ≡ some c) ⊎ (b ≡ none)
        → (a ≡ some c) ⊎ (a ≡ none)
    bereft (inl f) g = still_of f g
    bereft (inr (i, f)) g = inr f

    not_own :
        {a b : Option String} {id k : String}
        → (id ≡ k → ⊥)
        → (a ≡ b) ⊎ ((id ≡ k) × (a ≡ none))
        → a ≡ b
    not_own n (inl f) = f
    not_own n (inr (i, f)) = absurd (n i)

    has_client :
        {a b : Option String} {id k c : String}
        → a ≡ some c
        → (a ≡ b) ⊎ ((id ≡ k) × (a ≡ none))
        → b ≡ some c
    has_client e (inl f) = sym f ∙ e
    has_client e (inr (i, f)) = cc

    other_id :
        (id c : String) (r' : RoutedRequest)
        → Dict.lookup id rewritten ≡ some r'
        → r'.client_id ≡ some c
        → p'.client_id ≡ none
        → id ≡ p.backend_id
        → ⊥
    other_id id c r' e client lost own =
        let new : p' ≡ r' =
          ground (arith, lookup-insert p.backend_id id p' requests, eq_iff p.backend_id id) in
        let none_here : r'.client_id ≡ none = sym (ap (λ x. x.client_id) new) ∙ lost in cc

    -- The object loses its client. `clients'` are the entries that stay: they are old ones, none of them is the
    -- object's, and those of other pending requests are among them.
    pub bereaved :
        p'.client_id ≡ none
        → (clients' : ByClient) → Pairs.Unique clients'
        → ((q : Pair) (id : String)
            → Pairs.find q clients' ≡ some id
            → (Pairs.find q clients ≡ some id) × (id ≡ p.backend_id → ⊥))
        → ((id c : String) (r : RoutedRequest)
            → Dict.lookup id pending ≡ some id
            → Dict.lookup id requests ≡ some r
            → r.client_id ≡ some c
            → (id ≡ p.backend_id → ⊥)
            → Pairs.find (c, typed_id w r.original_id) clients ≡ some id
            → Pairs.find (c, typed_id w r.original_id) clients' ≡ some id)
        → Agree w rewritten pending clients' tokens
    bereaved lost clients' unique old kept = record {
      distinct = unique;
      itself = h.itself;
      object = λ id e.
          let (r, f) = h.object id e in let (r', f', _, _, _) = stored_at id r f in (r', f');
      named = λ id r' e. (was_at id r' e).3;
      of_client = λ c t id e.
          let (before, other) = old (c, t) id e in
          let (there, r, f, client, key) = h.of_client c t id before in
          let (r', f', o, _, k) = stored_at id r f in
          (there, r', f', not_own other (none_of lost k) ∙ client, ap (λ v. typed_id w v) o ∙ key);
      entry = λ id c r' there e client.
          let (r, f, o, _, k) = was_at id r' e in
          let mine : r.client_id ≡ some c = has_client client (none_of lost k) in
          subst (λ v. Pairs.find (c, typed_id w v) clients' ≡ some id) (sym o)
            (kept id c r there f mine (other_id id c r' e client lost)
              (h.entry id c r there f mine));
      token = λ t c v e.
          let (id, r, there, f, own, client) = h.token t c v e in
          let (r', f', _, o, k) = stored_at id r f in
          (id, r', there, f', o ∙ own, bereft (none_of lost k) client);
    }

    -- The object of a request that is not pending loses its client.
    pub forgotten :
        p'.client_id ≡ none
        → Dict.lookup p.backend_id pending ≡ none
        → Agree w rewritten pending clients tokens
    forgotten lost gone =
        bereaved lost clients h.distinct
          (λ q id e. (
            e,
            λ own.
                let (there, r, f, client, key) = h.of_client q.0 q.1 id e in
                absurd (ground (arith, own, there, gone)),
          ))
          (λ id c r there f client other own. own)

    -- An entry of the object under its client's key is its own or gone, and its client is that one or none.
    abbrev pub IsMine : String → Type 0
    IsMine c =
        ((Pairs.find (c, typed_id w p.original_id) clients ≡ some p.backend_id)
          ⊎ (Pairs.find (c, typed_id w p.original_id) clients ≡ none))
        × ((p.client_id ≡ some c) ⊎ (p.client_id ≡ none))

    not_mine :
        (c : String) (q : Pair) (id : String)
        → (p.client_id ≡ some c) ⊎ (p.client_id ≡ none)
        → Pairs.find q (Pairs.pop (c, typed_id w p.original_id) clients) ≡ some id
        → id ≡ p.backend_id
        → ⊥
    not_mine c (d, t) id owner e own =
        let before : Pairs.find (d, t) clients ≡ some id =
          ground (arith, find-pop (c, typed_id w p.original_id) (d, t) clients) in
        let (there, r, f, client, key) = h.of_client d t id before in
        let stored : l.stored ≡ r = ground (arith, own, f, l.is_stored) in
        let client' : p.client_id ≡ some d =
          sym l.same_client ∙ ap (λ x. x.client_id) stored ∙ client in
        let key' : typed_id w p.original_id ≡ t =
          ap (λ v. typed_id w v) (sym l.same_original ∙ ap (λ x. x.original_id) stored) ∙ key in
        elim owner [
          | inl this ↦
              let same : c ≡ d = ground (arith, this, client') in
              let here : pair_eq (c, typed_id w p.original_id) (d, t) ≡ true =
                (pair_eq_iff (c, typed_id w p.original_id) (d, t)).1 (ground arith) in
              ground (arith, here, find-pop (c, typed_id w p.original_id) (d, t) clients)
          | inr none_left ↦ ground (arith, none_left, client')
        ]

    still_there :
        (c d t id : String)
        → (Pairs.find (c, typed_id w p.original_id) clients ≡ some p.backend_id)
          ⊎ (Pairs.find (c, typed_id w p.original_id) clients ≡ none)
        → (id ≡ p.backend_id → ⊥)
        → Pairs.find (d, t) clients ≡ some id
        → Pairs.find (d, t) (Pairs.pop (c, typed_id w p.original_id) clients) ≡ some id
    still_there c d t id mine other own =
        elim (Bool-cases (pair_eq (c, typed_id w p.original_id) (d, t))) [
          | inl same ↦
              let at : ◌≡◌ {A = Pair} (c, typed_id w p.original_id) (d, t) =
                (pair_eq_iff (c, typed_id w p.original_id) (d, t)).0 same in
              elim mine [
                | inl m ↦
                    let m' : Pairs.find (d, t) clients ≡ some p.backend_id =
                      subst (λ k. Pairs.find k clients ≡ some p.backend_id) at m in
                    absurd (other (ground (arith, m', own)))
                | inr m ↦
                    let m' : Pairs.find (d, t) clients ≡ none =
                      subst (λ k. Pairs.find k clients ≡ none) at m in
                    cc
              ]
          | inr different ↦
              ground (arith, different, own, find-pop (c, typed_id w p.original_id) (d, t) clients)
        ]

    -- The object loses its client, and the client its entry.
    pub orphaned :
        (c : String)
        → p'.client_id ≡ none
        → IsMine c
        → Agree w rewritten pending (Pairs.pop (c, typed_id w p.original_id) clients) tokens
    orphaned c lost (mine, owner) =
        bereaved lost (Pairs.pop (c, typed_id w p.original_id) clients)
          (pop-Unique (c, typed_id w p.original_id) clients h.distinct)
          (λ q id e. (
            ground (arith, find-pop (c, typed_id w p.original_id) q clients),
            not_mine c q id owner e,
          ))
          (λ id d r there f client other own.
            still_there c d (typed_id w r.original_id) id mine other own)
