-- ===== src/Backend/Tables.antt =====
-- `SharedBackend`: the dicts of pending requests agree with each other and with the requests.
pub mod Changes
pub mod Tracked
use win_wsl_mcp_bridge.Base.{
  ℕ, String, Bool, true, false, Option, none, some, List, [], ◌∷◌, ◌≡◌, ◌≢◌, ◌⊎◌, inl, inr, refl,
  sym, ◌∙◌, subst, ap, arith, eq_iff, text_eq, if◌then◌else◌, Bool-cases, Option-cases,
}
use win_wsl_mcp_bridge.Base.Dict
use win_wsl_mcp_bridge.Base.Dict.{lookup-insert, lookup-pop}
use win_wsl_mcp_bridge.Base.Pairs
use win_wsl_mcp_bridge.Base.Pairs.{Pair, pair_eq, pair_eq_iff, find-pop, pop-Unique}
use win_wsl_mcp_bridge.Json.{Json}
use win_wsl_mcp_bridge.Scheduling.Queue.{RoutedRequest}
use win_wsl_mcp_bridge.Backend.State.{Backend, Wire}
use win_wsl_mcp_bridge.Backend.Requests.{typed_id, next_backend_id}
use win_wsl_mcp_bridge.Backend.Responses.{drop_client, drop_token}

abbrev pub Requests : Type 0
Requests = List (String × RoutedRequest)

abbrev pub Addresses : Type 0
Addresses = List (String × String)

abbrev pub ByClient : Type 0
ByClient = List (Pair × String)

abbrev pub Tokens : Type 0
Tokens = List (String × (String × Json))

module _ (w : Wire) where
  -- No client's key stands twice. A pending request is found under its own id, and its object has that id. A client's entry leads to a
  -- pending request of that client under that id, and each pending request of a client has its entry. A
  -- progress token leads to the client's own token in a pending request.
  pub record Agree (requests : Requests) (pending : Addresses) (clients : ByClient)
      (tokens : Tokens) : Type 0 where
    pub distinct : Pairs.Unique clients
    pub itself : (id a : String) → Dict.lookup id pending ≡ some a → a ≡ id
    pub object :
        (id : String)
        → Dict.lookup id pending ≡ some id
        → (r : RoutedRequest) × (Dict.lookup id requests ≡ some r)
    pub named :
        (id : String) (r : RoutedRequest) → Dict.lookup id requests ≡ some r → r.backend_id ≡ id
    pub of_client :
        (c t id : String)
        → Pairs.find (c, t) clients ≡ some id
        → (Dict.lookup id pending ≡ some id)
          × (r : RoutedRequest) × (Dict.lookup id requests ≡ some r)
          × (r.client_id ≡ some c)
          × (typed_id w r.original_id ≡ t)
    pub entry :
        (id c : String) (r : RoutedRequest)
        → Dict.lookup id pending ≡ some id
        → Dict.lookup id requests ≡ some r
        → r.client_id ≡ some c
        → Pairs.find (c, typed_id w r.original_id) clients ≡ some id
    pub token :
        (t c : String) (v : Json)
        → Dict.lookup t tokens ≡ some (c, v)
        → (id : String) × (r : RoutedRequest) × (Dict.lookup id pending ≡ some id)
          × (Dict.lookup id requests ≡ some r)
          × (r.progress_token ≡ some (t, v))
          × ((r.client_id ≡ some c) ⊎ (r.client_id ≡ none))

  abbrev pub IsRouted : Backend → Type 0
  IsRouted b = Agree b.requests b.pending_by_backend_id b.pending_by_client_id b.progress_tokens

  -- A request is the one that the store has, but for its flag.
  pub record Like (p : RoutedRequest) (requests : Requests) : Type 0 where
    pub stored : RoutedRequest
    pub is_stored : Dict.lookup p.backend_id requests ≡ some stored
    pub same_id : stored.backend_id ≡ p.backend_id
    pub same_client : stored.client_id ≡ p.client_id
    pub same_original : stored.original_id ≡ p.original_id
    pub same_token : stored.progress_token ≡ p.progress_token

  abbrev dropped : Option String → Json → Pair → Bool
  dropped none v q = false
  dropped (some c) v q = pair_eq (c, typed_id w v) q

  pub find-drop_client :
      (o : Option String) (v : Json) (q : Pair) (clients : ByClient)
      → Pairs.find q (drop_client w o v clients)
        ≡ (if dropped o v q then none else Pairs.find q clients)
  find-drop_client none v q clients = refl
  find-drop_client (some c) v q clients = find-pop (c, typed_id w v) q clients

  drop_client-Unique :
      (o : Option String) (v : Json) (clients : ByClient)
      → Pairs.Unique clients
      → Pairs.Unique (drop_client w o v clients)
  drop_client-Unique none v clients u = u
  drop_client-Unique (some c) v clients u = pop-Unique (c, typed_id w v) clients u

  abbrev token_dropped : Option (String × Json) → String → Bool
  token_dropped none t = false
  token_dropped (some token) t = text_eq token.0 t

  lookup-drop_token :
      (o : Option (String × Json)) (t : String) (tokens : Tokens)
      → Dict.lookup t (drop_token w o tokens)
        ≡ (if token_dropped o t then none else Dict.lookup t tokens)
  lookup-drop_token none t tokens = refl
  lookup-drop_token (some token) t tokens = lookup-pop token.0 t tokens

  dropped_lem :
      (o : Option String) (v : Json) (c t : String)
      → o ≡ some c
      → typed_id w v ≡ t
      → dropped o v (c, t) ≡ true
  dropped_lem none v c t e f = cc
  dropped_lem (some d) v c t e f = (pair_eq_iff (d, typed_id w v) (c, t)).1 (ground arith)

  dropped_key :
      (o : Option String) (v : Json) (c t : String)
      → dropped o v (c, t) ≡ true
      → (o ≡ some c) × (typed_id w v ≡ t)
  dropped_key none v c t e = cc
  dropped_key (some d) v c t e =
      let same : ◌≡◌ {A = Pair} (d, typed_id w v) (c, t) =
        (pair_eq_iff (d, typed_id w v) (c, t)).0 e in
      (ap {A = Pair} (λ q. some q.0) same, ap {A = Pair} (λ q. q.1) same)

  token_dropped_lem :
      (o : Option (String × Json)) (t : String) (v : Json)
      → o ≡ some (t, v)
      → token_dropped o t ≡ true
  token_dropped_lem none t v e = cc
  token_dropped_lem (some (u, x)) t v e = ground (arith, eq_iff u t)

  -- Either the request is pending, or its client has no entry under its key.
  abbrev pub IsFree : RoutedRequest → Addresses → ByClient → Type 0
  IsFree p pending clients =
      (Dict.lookup p.backend_id pending ≡ some p.backend_id)
      ⊎ ((c : String)
          → p.client_id ≡ some c
          → Pairs.find (c, typed_id w p.original_id) clients ≡ none)

  module _ {requests : Requests} {pending : Addresses} {clients : ByClient} {tokens : Tokens}
      (h : Agree requests pending clients tokens) (p : RoutedRequest) (l : Like p requests) where
    -- The request that the store has at an id.
    at_own_id :
        (id : String) (r : RoutedRequest)
        → text_eq p.backend_id id ≡ true
        → Dict.lookup id requests ≡ some r
        → (r.client_id ≡ p.client_id)
          × (r.original_id ≡ p.original_id)
          × (r.progress_token ≡ p.progress_token)
    at_own_id id r same e =
        let own : p.backend_id ≡ id = (eq_iff p.backend_id id).0 same in
        let stored : l.stored ≡ r = ground (arith, l.is_stored) in
        (
          subst (λ x. x.client_id ≡ p.client_id) stored l.same_client,
          subst (λ x. x.original_id ≡ p.original_id) stored l.same_original,
          subst (λ x. x.progress_token ≡ p.progress_token) stored l.same_token,
        )

    untracked_client :
        (c t id : String)
        → Pairs.find (c, t) (drop_client w p.client_id p.original_id clients) ≡ some id
        → (Dict.lookup id (Dict.pop p.backend_id pending) ≡ some id)
          × (r : RoutedRequest) × (Dict.lookup id requests ≡ some r)
          × (r.client_id ≡ some c)
          × (typed_id w r.original_id ≡ t)
    untracked_client c t id e =
        let kept : Pairs.find (c, t) clients ≡ some id =
          ground (arith, find-drop_client p.client_id p.original_id (c, t) clients) in
        let (there, r, stored, client, key) = h.of_client c t id kept in
        elim (Bool-cases (text_eq p.backend_id id)) [
          | inl same ↦
              let (c', o', t') = at_own_id id r same stored in
              let gone : dropped p.client_id p.original_id (c, t) ≡ true =
                dropped_lem p.client_id p.original_id c t (sym c' ∙ client)
                  (ap (λ v. typed_id w v) (sym o') ∙ key) in
              absurd
                (ground (arith, gone, find-drop_client p.client_id p.original_id (c, t) clients))
          | inr other ↦
              (ground (arith, other, lookup-pop p.backend_id id pending), r, stored, client, key)
        ]

    untracked_entry :
        IsFree p pending clients
        → (id c : String) (r : RoutedRequest)
        → Dict.lookup id (Dict.pop p.backend_id pending) ≡ some id
        → Dict.lookup id requests ≡ some r
        → r.client_id ≡ some c
        → Pairs.find (c, typed_id w r.original_id) (drop_client w p.client_id p.original_id clients)
          ≡ some id
    untracked_entry free id c r there stored client =
        let before : Dict.lookup id pending ≡ some id =
          ground (arith, lookup-pop p.backend_id id pending) in
        let own : Pairs.find (c, typed_id w r.original_id) clients ≡ some id =
          h.entry id c r before stored client in
        elim (Bool-cases (dropped p.client_id p.original_id (c, typed_id w r.original_id))) [
          | inl gone ↦
              let (client', key) = dropped_key p.client_id p.original_id c _ gone in
              absurd (clash free id c r there own client' key)
          | inr kept ↦ ground (
            arith,
            kept,
            own,
            find-drop_client p.client_id p.original_id (c, typed_id w r.original_id) clients,
          )
        ]
      where
        clash :
            IsFree p pending clients
            → (id c : String) (r : RoutedRequest)
            → Dict.lookup id (Dict.pop p.backend_id pending) ≡ some id
            → Pairs.find (c, typed_id w r.original_id) clients ≡ some id
            → p.client_id ≡ some c
            → typed_id w p.original_id ≡ typed_id w r.original_id
            → ⊥
        clash (inr none_there) id c r there own client' key =
            let missing : Pairs.find (c, typed_id w r.original_id) clients ≡ none =
              subst (λ k. Pairs.find (c, k) clients ≡ none) key (none_there c client') in
            cc
        clash (inl here) id c r there own client' key =
            let mine : Pairs.find (c, typed_id w l.stored.original_id) clients ≡ some p.backend_id =
              h.entry p.backend_id c l.stored here l.is_stored (l.same_client ∙ client') in
            let at_key : Pairs.find (c, typed_id w r.original_id) clients ≡ some p.backend_id =
              subst (λ k. Pairs.find (c, k) clients ≡ some p.backend_id)
                (ap (λ v. typed_id w v) l.same_original ∙ key) mine in
            let same : p.backend_id ≡ id = ground (arith, at_key, own) in
            ground (arith, same, eq_iff p.backend_id id, lookup-pop p.backend_id id pending)

    untracked_token :
        (t c : String) (v : Json)
        → Dict.lookup t (drop_token w p.progress_token tokens) ≡ some (c, v)
        → (id : String) × (r : RoutedRequest) × (Dict.lookup id (Dict.pop p.backend_id pending)
            ≡ some id)
          × (Dict.lookup id requests ≡ some r)
          × (r.progress_token ≡ some (t, v))
          × ((r.client_id ≡ some c) ⊎ (r.client_id ≡ none))
    untracked_token t c v e =
        let kept : Dict.lookup t tokens ≡ some (c, v) =
          ground (arith, lookup-drop_token p.progress_token t tokens) in
        let (id, r, there, stored, own, client) = h.token t c v kept in
        elim (Bool-cases (text_eq p.backend_id id)) [
          | inl same ↦
              let (c', o', t') = at_own_id id r same stored in
              let gone : token_dropped p.progress_token t ≡ true =
                token_dropped_lem p.progress_token t v (sym t' ∙ own) in
              absurd (ground (arith, gone, lookup-drop_token p.progress_token t tokens))
          | inr other ↦ (
            id,
            r,
            ground (arith, other, lookup-pop p.backend_id id pending),
            stored,
            own,
            client,
          )
        ]

    -- Taking a request out of the dicts.
    pub untracked :
        IsFree p pending clients
        → Agree requests
            (Dict.pop p.backend_id pending)
            (drop_client w p.client_id p.original_id clients)
            (drop_token w p.progress_token tokens)
    untracked free = record {
      distinct = drop_client-Unique p.client_id p.original_id clients h.distinct;
      itself = λ id a e. h.itself id a (ground (arith, lookup-pop p.backend_id id pending));
      object = λ id e. h.object id (ground (arith, lookup-pop p.backend_id id pending));
      named = h.named;
      of_client = untracked_client;
      entry = untracked_entry free;
      token = untracked_token;
    }
