-- ===== src/Backend/Routed/Detaching.antt =====
-- `SharedBackend.detach`: the requests of a client that leaves, and the release of its lease, keep the dicts in
-- agreement.
use win_wsl_mcp_bridge.Base.{
  ℕ, String, true, false, Option, none, some, List, [], ◌∷◌, ◌≡◌, ◌⊎◌, inl, inr, refl, sym, ◌∙◌,
  subst, ap, arith, eq_iff, text_eq, if◌then◌else◌, Bool-cases, All, All-imp,
}
use win_wsl_mcp_bridge.Base.Dict
use win_wsl_mcp_bridge.Base.Dict.{lookup-insert, lookup-pop}
use win_wsl_mcp_bridge.Base.Pairs
use win_wsl_mcp_bridge.Base.Pairs.{Pair, find-pop, Unique-found}
use win_wsl_mcp_bridge.Json.{Json}
use win_wsl_mcp_bridge.Scheduling.Queue.{RoutedRequest}
use win_wsl_mcp_bridge.Backend.State.{Backend, Wire}
use win_wsl_mcp_bridge.Backend.Task.{Step, pure, modify, ◌>>=◌, catch, each, Ensures}
use win_wsl_mcp_bridge.Backend.Rules.{
  Keeps-pure, Keeps-reads, Ensures-if, Ensures-modify, Ensures-bind, Ensures-reads, Ensures-weaken,
  Ensures-then, Ensures-catch,
}
use win_wsl_mcp_bridge.Backend.Requests.{typed_id}
use win_wsl_mcp_bridge.Backend.Responses.{untrack, drop_client}
use win_wsl_mcp_bridge.Backend.Departure.{
  discard_request, forget_request, orphan, drop_queued, release_request, on_object, on_request,
  release_each, Cancelled, unsettled, all_settled, waiting_for, cancel_client_requests, owned,
}
use win_wsl_mcp_bridge.Backend.Tables.{
  Agree, Like, IsFree, Requests, Addresses, ByClient, Tokens, untracked,
}
use win_wsl_mcp_bridge.Backend.Tables.Changes.{relabelled, orphaned, forgotten}
use win_wsl_mcp_bridge.Backend.Untouched.{Holds, Keeps, write_message-Keeps, complete-Keeps}
use win_wsl_mcp_bridge.Backend.Routed.{IsFresh, Ready}
use win_wsl_mcp_bridge.Backend.Routed.Leaving.{kept_IsFresh, rewritten-Like, stored-Like}

module _ (w : Wire) (uuid : String) (c : String) where
  abbrev IsOwnEntry : Json → String → ByClient → Type 0
  IsOwnEntry original id clients =
      (Pairs.find (c, typed_id w original) clients ≡ some id)
      ⊎ (Pairs.find (c, typed_id w original) clients ≡ none)

  abbrev IsOwn : Option String → Type 0
  IsOwn client = (client ≡ some c) ⊎ (client ≡ none)

  -- A request of the client, or one that was: the entry under its key is its own or gone.
  abbrev OwnedAt : Requests → ByClient → String → Type 0
  OwnedAt requests clients id =
      (r : RoutedRequest) × (Dict.lookup id requests ≡ some r)
      × IsOwnEntry r.original_id id clients
      × IsOwn r.client_id

  abbrev Owned : List String → Requests → Addresses → ByClient → Tokens → ℕ → Type 0
  Owned ids requests pending clients tokens generation =
      (Agree w requests pending clients tokens × IsFresh w uuid requests generation)
      × All (λ id. OwnedAt requests clients id) ids

  abbrev Full : RoutedRequest → List String → Requests → Addresses → ByClient → Tokens → ℕ → Type 0
  Full p ids requests pending clients tokens generation =
      (Agree w requests pending clients tokens × IsFresh w uuid requests generation)
      × All (λ id. OwnedAt requests clients id) ids
      × Like w p requests
      × IsOwnEntry p.original_id p.backend_id clients
      × IsOwn p.client_id

  -- Fewer entries.
  fewer-entries :
      (clients clients' : ByClient) (v : Json) (id : String)
      → (Pairs.find (c, typed_id w v) clients' ≡ Pairs.find (c, typed_id w v) clients)
        ⊎ (Pairs.find (c, typed_id w v) clients' ≡ none)
      → IsOwnEntry v id clients
      → IsOwnEntry v id clients'
  fewer-entries clients clients' v id (inr e) own = inr e
  fewer-entries clients clients' v id (inl e) (inl f) = inl (e ∙ f)
  fewer-entries clients clients' v id (inl e) (inr f) = inr (e ∙ f)

  dropped-entries :
      (o : Option String) (u v : Json) (clients : ByClient)
      → (Pairs.find (c, typed_id w v) (drop_client w o u clients)
          ≡ Pairs.find (c, typed_id w v) clients)
        ⊎ (Pairs.find (c, typed_id w v) (drop_client w o u clients) ≡ none)
  dropped-entries none u v clients = inl refl
  dropped-entries (some d) u v clients = popped-entries (d, typed_id w u) v clients
    where
      popped-entries :
          (q : Pair) (v : Json) (clients : ByClient)
          → (Pairs.find (c, typed_id w v) (Pairs.pop q clients)
              ≡ Pairs.find (c, typed_id w v) clients)
            ⊎ (Pairs.find (c, typed_id w v) (Pairs.pop q clients) ≡ none)
      popped-entries q v clients = elim (Bool-cases (Pairs.pair_eq q (c, typed_id w v))) [
        | inl e ↦ inr (ground (arith, e, find-pop q (c, typed_id w v) clients))
        | inr e ↦ inl (ground (arith, e, find-pop q (c, typed_id w v) clients))
      ]

  IsOwn-of : {a b : Option String} → (a ≡ b) ⊎ (a ≡ none) → IsOwn b → IsOwn a
  IsOwn-of (inl e) (inl f) = inl (e ∙ f)
  IsOwn-of (inl e) (inr f) = inr (e ∙ f)
  IsOwn-of (inr e) own = inr e

  -- An object written again, perhaps without its client.
  rewritten-OwnedAt :
      (p q : RoutedRequest) (requests : Requests) (clients : ByClient)
      → Like w p requests
      → q.original_id ≡ p.original_id
      → (q.client_id ≡ p.client_id) ⊎ (q.client_id ≡ none)
      → (id : String) → OwnedAt requests clients id
      → OwnedAt (Dict.insert p.backend_id q requests) clients id
  rewritten-OwnedAt p q requests clients l same client id (r, e, entry, own) =
      elim (Bool-cases (text_eq p.backend_id id)) [
        | inl here ↦
            let at : p.backend_id ≡ id = (eq_iff p.backend_id id).0 here in
            let stored : l.stored ≡ r = ground (arith, at, l.is_stored) in
            let original : r.original_id ≡ q.original_id =
              sym (ap (λ x. x.original_id) stored) ∙ l.same_original ∙ sym same in
            let client' : p.client_id ≡ r.client_id =
              sym l.same_client ∙ ap (λ x. x.client_id) stored in
            (
              q,
              ground (arith, here, lookup-insert p.backend_id id q requests),
              subst (λ v. IsOwnEntry v id clients) original entry,
              IsOwn-of (elim client [ inl f ↦ inl (f ∙ client') | inr f ↦ inr f ]) own,
            )
        | inr other ↦
            (r, ground (arith, other, lookup-insert p.backend_id id q requests), entry, own)
      ]

  -- A request of the client's own is held, and so can be taken out.
  own-IsFree :
      (p : RoutedRequest) (requests : Requests) (pending : Addresses) (clients : ByClient)
      (tokens : Tokens)
      → Agree w requests pending clients tokens
      → IsOwnEntry p.original_id p.backend_id clients
      → IsOwn p.client_id
      → IsFree w p pending clients
  own-IsFree p requests pending clients tokens agree (inl e) own =
      inl (agree.of_client c (typed_id w p.original_id) p.backend_id e).0
  own-IsFree p requests pending clients tokens agree (inr e) (inl own) = inr (λ d f.
      let same : c ≡ d = ground (arith, own, f) in
      subst (λ k. Pairs.find (k, typed_id w p.original_id) clients ≡ none) same e)
  own-IsFree p requests pending clients tokens agree (inr e) (inr own) = inr (λ d f. cc)

  module _ (ids : List String) where
    abbrev pub Rest : Backend → Type 0
    Rest = Holds (Owned ids)

    discard-Ensures : (p : RoutedRequest) → Keeps (Full p ids) (discard_request p)
    unfolding discard_request
    discard-Ensures p = Ensures-modify _ λ b h.
        let q = record p { cancelled = true } in
        let (ready, rest, l, entry, own) = h in
        (
          (
            relabelled w ready.0 p q l refl refl refl refl,
            kept_IsFresh w uuid p q b.requests b.generation l ready.1,
          ),
          All-imp _ _ ids
              (rewritten-OwnedAt p q b.requests b.pending_by_client_id l refl (inl refl)) rest,
          rewritten-Like w uuid p q b.requests refl refl refl refl,
          entry,
          own,
        )

    -- Out of the dicts, with the others still the client's.
    abbrev Out : RoutedRequest → Requests → Addresses → ByClient → Tokens → ℕ → Type 0
    Out p requests pending clients tokens generation =
        (Agree w requests pending clients tokens × IsFresh w uuid requests generation)
        × All (λ id. OwnedAt requests clients id) ids
        × Like w p requests
        × (Dict.lookup p.backend_id pending ≡ none)

    untrack-Out : (p : RoutedRequest) → Ensures (Holds (Full p ids)) (Holds (Out p)) (untrack w p)
    unfolding untrack
    untrack-Out p = Ensures-modify _ λ b h.
        let (ready, rest, l, entry, own) = h in
        let free =
          own-IsFree p b.requests b.pending_by_backend_id b.pending_by_client_id b.progress_tokens
            ready.0 entry own in
        (
          (untracked w ready.0 p l free, ready.1),
          All-imp _ _ ids
              (λ id x.
                let (r, e, entry', own') = x in
                (
                  r,
                  e,
                  fewer-entries b.pending_by_client_id _ r.original_id id
                      (dropped-entries p.client_id p.original_id r.original_id
                        b.pending_by_client_id)
                      entry',
                  own',
                ))
              rest,
          l,
          ground (
            arith,
            eq_iff p.backend_id p.backend_id,
            lookup-pop p.backend_id p.backend_id b.pending_by_backend_id,
          ),
        )

    drop_queued-Ensures : (p : RoutedRequest) → Ensures (Holds (Full p ids)) Rest (drop_queued w p)
    unfolding drop_queued
    drop_queued-Ensures p =
        Ensures-bind {R = Holds (Full p ids)} _ _ (λ b h. (h.0, h.1)) (discard-Ensures p)
          λ _.
            Ensures-bind {R = Holds (Out p)} _ _ (λ b h. (h.0, h.1)) (untrack-Out p)
              λ _.
                Ensures-then {R = Holds (Out p)} _ (λ b h. (h.0, h.1))
                  (complete-Keeps (Out p) p.backend_id)

    forget-Ensures : (p : RoutedRequest) → Ensures (Holds (Full p ids)) Rest (forget_request w p)
    unfolding forget_request
    forget-Ensures p =
        Ensures-bind {R = Holds (Full p ids)} _ _ (λ b h. (h.0, h.1)) (discard-Ensures p)
          λ _.
            Ensures-bind {R = Holds (Out p)} _ _ (λ b h. (h.0, h.1)) (untrack-Out p)
              λ _.
                Ensures-bind {R = Rest} _ _ (λ b h. h) (lose p)
                  λ _. complete-Keeps (Owned ids) p.backend_id
      where
        lose :
            (p : RoutedRequest)
            → Ensures (Holds (Out p)) Rest (
                modify (λ b. record b {
                  requests =
                      Dict.insert p.backend_id
                        (record p { cancelled = true; client_id = none })
                        b.requests;
                }))
        lose p = Ensures-modify _ λ b h.
            let q = record p { cancelled = true; client_id = none } in
            let (ready, rest, l, gone) = h in
            (
              (
                forgotten w ready.0 p q l refl refl refl refl gone,
                kept_IsFresh w uuid p q b.requests b.generation l ready.1,
              ),
              All-imp _ _ ids
                  (rewritten-OwnedAt p q b.requests b.pending_by_client_id l refl (inr refl)) rest,
            )

    orphan-Ensures : (p : RoutedRequest) → Ensures (Holds (Full p ids)) Rest (orphan w c p)
    unfolding orphan
    orphan-Ensures p = Ensures-modify _ λ b h.
        let q = record p { client_id = none } in
        let (ready, rest, l, entry, own) = h in
        let clients' = Pairs.pop (c, typed_id w p.original_id) b.pending_by_client_id in
        (
          (
            orphaned w ready.0 p q l refl refl refl c refl (entry, own),
            kept_IsFresh w uuid p q b.requests b.generation l ready.1,
          ),
          All-imp _ _ ids
              (λ id x.
                let (r, e, entry', own') =
                  rewritten-OwnedAt p q b.requests b.pending_by_client_id l refl (inr refl) id x in
                (
                  r,
                  e,
                  fewer-entries b.pending_by_client_id clients' r.original_id id
                      (dropped-entries (some c) p.original_id r.original_id b.pending_by_client_id)
                      entry',
                  own',
                ))
              rest,
        )

    release_request-Ensures :
        (p : RoutedRequest) → Ensures (Holds (Full p ids)) Rest (release_request w c p)
    unfolding release_request
    release_request-Ensures p =
        Ensures-bind {R = Holds (Full p ids)} _ _ (λ b h. (h.0, h.1)) (Keeps-reads _)
          λ active. Ensures-if p.is_initialize _ _ (orphan-Ensures p) (
            Ensures-if active _ _
              (Ensures-then {R = Holds (Full p ids)} _ (λ b h. (h.0, h.1))
                (write_message-Keeps (Full p ids) w _))
              (drop_queued-Ensures p))

  -- One request of the client, by its address.
  abbrev Next : String → List String → Backend → Type 0
  Next id ids = Holds (Owned (id ∷ ids))

  on_object-none :
      (f : RoutedRequest → Step) (id : String) (ids : List String)
      → Ensures
          (λ b. Next id ids b × (Dict.lookup id b.requests ≡ none))
          (Rest ids)
          (on_object w f none)
  unfolding on_object
  on_object-none f id ids =
      Ensures-then {R = λ b. Next id ids b × (Dict.lookup id b.requests ≡ none)} _
        (λ b h. (h.0.0, h.0.1.1)) (Keeps-pure tt)

  on_object-some :
      (f : RoutedRequest → Step) (id : String) (ids : List String) (p : RoutedRequest)
      → Ensures (Holds (Full p ids)) (Rest ids) (f p)
      → Ensures
          (λ b. Next id ids b × (Dict.lookup id b.requests ≡ some p))
          (Rest ids)
          (on_object w f (some p))
  unfolding on_object
  on_object-some f id ids p k =
      Ensures-weaken _
        (λ b h.
          let ((agree, fresh), ((r, e, entry, own), rest)) = h.0 in
          let same : r ≡ p = ground (arith, e, h.1) in
          let named : p.backend_id ≡ id = agree.named id p h.1 in
          (
            (agree, fresh),
            rest,
            stored-Like w uuid id p b.requests named h.1,
            subst (λ k. IsOwnEntry p.original_id k b.pending_by_client_id) (sym named)
                (subst (λ x. IsOwnEntry x.original_id id b.pending_by_client_id) same entry),
            subst (λ x. IsOwn x.client_id) same own,
          ))
        k

  on_request-Ensures :
      (f : RoutedRequest → Step) (id : String) (ids : List String)
      → ((p : RoutedRequest) → Ensures (Holds (Full p ids)) (Rest ids) (f p))
      → Ensures (Next id ids) (Rest ids) (on_request w f id)
  unfolding on_request
  on_request-Ensures f id ids k = Ensures-reads _ _ λ o. by_object o
    where
      by_object :
          (o : Option RoutedRequest)
          → Ensures
              (λ b. Next id ids b × (Dict.lookup id b.requests ≡ o))
              (Rest ids)
              (on_object w f o)
      by_object none = on_object-none f id ids
      by_object (some p) = on_object-some f id ids p (k p)

  forget_all-Ensures :
      (ids : List String)
      → Ensures (Rest ids) (Holds (Ready w uuid)) (each (on_request w (forget_request w)) ids)
  unfolding each
  forget_all-Ensures [] = Ensures-then {R = Rest []} _ (λ b h. h.0) (Keeps-pure tt)
  forget_all-Ensures (id ∷ ids) =
      Ensures-bind {R = Rest ids} _ _ (λ b h. h.0)
        (on_request-Ensures (forget_request w) id ids (forget-Ensures ids))
        (λ _. forget_all-Ensures ids)

  told-Ensures :
      (id : String) (ids : List String)
      → Ensures
          (Next id ids)
          (Rest ids)
          (catch (on_request w (release_request w c) id >>= λ _. pure true) (λ fault. pure false))
  told-Ensures id ids =
      Ensures-catch {R = Rest ids} _ _ (λ b h. h)
        (Ensures-bind {R = Rest ids} _ _ (λ b h. h)
          (on_request-Ensures (release_request w c) id ids (release_request-Ensures ids))
          (λ _. Keeps-pure true))
        (λ fault. Keeps-pure false)

  release_each-Ensures :
      (ids : List String) (found : Cancelled)
      → Ensures (Rest ids) (Holds (Ready w uuid)) (release_each w c ids found)
  unfolding release_each
  release_each-Ensures [] found = Ensures-then {R = Rest []} _ (λ b h. h.0) (Keeps-pure found)
  release_each-Ensures (id ∷ ids) found =
      Ensures-bind {R = Next id ids} _ _ (λ b h. h.0) (Keeps-reads _)
        λ active.
          Ensures-bind {R = Rest ids} _ _ (λ b h. h.0) (told-Ensures id ids)
            λ told.
              Ensures-if told _ _
                (release_each-Ensures ids (if active then waiting_for id else found))
                (Ensures-then {R = Rest ids} _ (λ b h. h.0) (Keeps-pure unsettled))

  entry-OwnedAt :
      (requests : Requests) (pending : Addresses) (clients : ByClient) (tokens : Tokens)
      → Agree w requests pending clients tokens
      → (t id : String) → Pairs.find (c, t) clients ≡ some id
      → OwnedAt requests clients id
  entry-OwnedAt requests pending clients tokens agree t id e =
      let (there, r, f, client, key) = agree.of_client c t id e in
      (r, f, inl (subst (λ k. Pairs.find (c, k) clients ≡ some id) (sym key) e), inl client)

  owned-All :
      (P : String → Type 0) (clients : ByClient)
      → All (λ e. text_eq e.0.0 c ≡ true → P e.1) clients
      → All P (owned c clients)
  unfolding owned
  owned-All P [] h = tt
  owned-All P (((d, t), id) ∷ clients) h = elim (Bool-cases (text_eq d c)) [
    | inl same ↦ rw same (h.0 same, owned-All P clients h.1)
    | inr other ↦ rw other (owned-All P clients h.1)
  ]

  -- All the requests of a client, as they stand.
  Ready-Owned : (b : Backend) → Holds (Ready w uuid) b → Rest (owned c b.pending_by_client_id) b
  Ready-Owned b (agree, fresh) = (
    (agree, fresh),
    owned-All (OwnedAt b.requests b.pending_by_client_id) b.pending_by_client_id (
        All-imp _ _ b.pending_by_client_id
          (λ e found same.
            entry-OwnedAt b.requests b.pending_by_backend_id b.pending_by_client_id
              b.progress_tokens agree e.0.1 e.1
              (subst (λ k. Pairs.find (k, e.0.1) b.pending_by_client_id ≡ some e.1)
                ((eq_iff e.0.0 c).0 same) found))
          (Unique-found b.pending_by_client_id agree.distinct)),
  )

  abbrev Of : List String → Backend → Type 0
  Of ids b = Holds (Ready w uuid) b × (owned c b.pending_by_client_id ≡ ids)

  Of-Rest : (ids : List String) (b : Backend) → Of ids b → Rest ids b
  Of-Rest ids b (ready, e) = subst (λ k. Rest k b) e (Ready-Owned b ready)

  pub cancel_client_requests-Ensures :
      Ensures (Holds (Ready w uuid)) (Holds (Ready w uuid)) (cancel_client_requests w c)
  unfolding cancel_client_requests
  cancel_client_requests-Ensures =
      Ensures-bind {R = Holds (Ready w uuid)} _ _ (λ b h. h) (Keeps-reads _)
        λ up. Ensures-reads _ _ λ ids.
          Ensures-if up _ _ (Ensures-weaken _ (Of-Rest ids) (release_each-Ensures ids all_settled))
            (Ensures-bind {R = Holds (Ready w uuid)} _ _ (λ b h. h)
              (Ensures-weaken _ (Of-Rest ids) (forget_all-Ensures ids))
              (λ _. Keeps-pure all_settled))
