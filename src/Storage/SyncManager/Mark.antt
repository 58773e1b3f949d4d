-- ===== src/Storage/SyncManager/Mark.antt =====
-- storage/syncManager.js: the mark of what a peer has seen.
use p2p_app.Prelude.{
  ℕ, ◌<◌, ◌≡◌, refl, sym, ◌∙◌, ap, String, Bool, true, List, [], ◌∷◌, arith, if-cases, length, All,
  All-append, All-mono, ◌==◌, max, ltb, if◌then◌else◌,
}
use p2p_app.Protocol.Message.{Message}
use p2p_app.Protocol.MessageFactory.{Tools}
use p2p_app.Storage.Keys.{Key, start_key, end_key}
use p2p_app.Storage.Level.{Level, IsLevel, Value, number, written, put}
use p2p_app.Storage.Level.Written.{eq_key_self}
use p2p_app.Storage.MessageStore.{MessageStore, get_by_topic, await_flush}
use p2p_app.Storage.MessageStore.Scan.{collect_sound}
use p2p_app.Storage.SyncManager.{
  SyncManager, Session, Running, Round, send_batch, settle, rounds, finish, get_last_seen_lamport,
  update_last_seen_lamport, parse_lamport, sync_key, gather,
}
use p2p_app.Storage.SyncManager.Batches.{settle-Settled}

All-refl : (es : List (Key × Value)) → All (λ (e : Key × Value). e.0 ≡ e.0) es
All-refl [] = tt
All-refl (e ∷ es) = (refl, All-refl es)

module _ {L : Level} where
  -- The store, its status and what a session is about stay the same until it ends.
  record Kept (r s : Running L) : Type 0 where
    same_store : s.manager.store ≡ r.manager.store
    same_status : s.manager.is_open ≡ r.manager.is_open
    same_peer : s.session.peer_id ≡ r.session.peer_id
    same_last_seen : s.session.last_seen ≡ r.session.last_seen
    same_max : s.session.max_lamport ≡ r.session.max_lamport

  Kept-trans : (r s t : Running L) → Kept r s → Kept s t → Kept r t
  Kept-trans r s t p q = record {
    same_store = q.same_store ∙ p.same_store;
    same_status = q.same_status ∙ p.same_status;
    same_peer = q.same_peer ∙ p.same_peer;
    same_last_seen = q.same_last_seen ∙ p.same_last_seen;
    same_max = q.same_max ∙ p.same_max;
  }

  rounds-Kept : (tools : Tools) (r : Running L) (rs : List Round) → Kept r (rounds L tools r rs)
  unfolding rounds send_batch
  rounds-Kept tools r [] = record {
    same_store = refl;
    same_status = refl;
    same_peer = refl;
    same_last_seen = refl;
    same_max = refl;
  }
  rounds-Kept tools r (round ∷ more) =
      let next = settle L round.outcome round.fresh.id (send_batch L tools round.fresh r) in
      let s = settle-Settled round.outcome round.fresh.id (send_batch L tools round.fresh r) in
      if-cases (Kept r) (length r.session.rest == 0) r (rounds L tools next more)
        (λ _. record {
          same_store = refl;
          same_status = refl;
          same_peer = refl;
          same_last_seen = refl;
          same_max = refl;
        })
        (λ _.
          Kept-trans r next (rounds L tools next more)
            (record {
              same_store = s.same_store;
              same_status = s.same_status;
              same_peer = ap (λ (x : Session). x.peer_id) s.same_session;
              same_last_seen = ap (λ (x : Session). x.last_seen) s.same_session;
              same_max = ap (λ (x : Session). x.max_lamport) s.same_session;
            })
            (rounds-Kept tools next more))

  get_last_seen_lamport-update :
      IsLevel L
      → (s : SyncManager L) (peer_id : String) (n : ℕ) → s.is_open ≡ true
      → get_last_seen_lamport L (update_last_seen_lamport L true s peer_id n) peer_id ≡ n
  unfolding get_last_seen_lamport update_last_seen_lamport written parse_lamport
  get_last_seen_lamport-update lawful s peer_id n opened =
      rw
        (
          opened,
          lawful.get-batch s.store.db (put (sync_key peer_id) (number n) ∷ []) (sync_key peer_id),
          eq_key_self (sync_key peer_id),
        )
        refl

  finish-mark :
      IsLevel L
      → (r : Running L) → r.manager.is_open ≡ true
      → get_last_seen_lamport L r.manager r.session.peer_id ≡ r.session.last_seen
      → get_last_seen_lamport L (finish L true r) r.session.peer_id
        ≡ max r.session.last_seen r.session.max_lamport
  unfolding finish
  finish-mark lawful r opened seen =
      if-cases
        (λ (s : SyncManager L).
          get_last_seen_lamport L s r.session.peer_id
          ≡ max r.session.last_seen r.session.max_lamport)
        (ltb r.session.last_seen r.session.max_lamport)
        (update_last_seen_lamport L true r.manager r.session.peer_id r.session.max_lamport)
        r.manager
        (λ later.
          get_last_seen_lamport-update lawful r.manager r.session.peer_id r.session.max_lamport
            opened
          ∙ ground arith)
        (λ early. seen ∙ ground arith)

  same_mark :
      (a b : SyncManager L) (peer_id : String)
      → a.store ≡ b.store
      → a.is_open ≡ b.is_open
      → get_last_seen_lamport L a peer_id ≡ get_last_seen_lamport L b peer_id
  unfolding get_last_seen_lamport
  same_mark a b peer_id store status =
      ap (λ (o : Bool). if o then parse_lamport (L.get a.store.db (sync_key peer_id)) else 0) status
      ∙ ap
          (λ (m : MessageStore L).
            if b.is_open then parse_lamport (L.get m.db (sync_key peer_id)) else 0)
          store

  -- Over a lawful and open database, when the mark of the peer is the one that the session began
  -- with and its write succeeds, the mark after the session is the larger of that and the latest
  -- timestamp of the session, however many rounds were run and whether or not any batch was
  -- acknowledged.
  pub get_last_seen_lamport-finish :
      IsLevel L
      → (tools : Tools) (r : Running L) (rs : List Round) → r.manager.is_open ≡ true
      → get_last_seen_lamport L r.manager r.session.peer_id ≡ r.session.last_seen
      → get_last_seen_lamport L (finish L true (rounds L tools r rs)) r.session.peer_id
        ≡ max r.session.last_seen r.session.max_lamport
  get_last_seen_lamport-finish lawful tools r rs opened seen =
      let s = rounds L tools r rs in
      let k = rounds-Kept tools r rs in
      let at_end : get_last_seen_lamport L s.manager s.session.peer_id ≡ s.session.last_seen =
        ap (get_last_seen_lamport L s.manager) k.same_peer
        ∙ (same_mark s.manager r.manager r.session.peer_id k.same_store k.same_status
            ∙ (seen ∙ sym k.same_last_seen)) in
      ap (get_last_seen_lamport L (finish L true s)) (sym k.same_peer)
      ∙ (finish-mark lawful s (k.same_status ∙ opened) at_end
          ∙ (ap (λ n. max n s.session.max_lamport) k.same_last_seen
              ∙ ap (max r.session.last_seen) k.same_max))

  -- Only messages later than the mark are gathered.
  pub gather-Later :
      (ok : Bool) (store : MessageStore L) (since : ℕ) (topics : List String)
      → All (λ (m : Message). since < m.lamport_timestamp) (gather L ok store since topics).1
  unfolding gather get_by_topic
  gather-Later ok store since [] = tt
  gather-Later ok store since (topic ∷ topics) =
      let read = get_by_topic L ok store topic since in
      All-append (λ (m : Message). since < m.lamport_timestamp) read.1
        (gather L ok read.0 since topics).1
        (All-mono (λ (m : Message). (since < m.lamport_timestamp) × ((k : Key) × (k ≡ k)))
          (λ (m : Message). since < m.lamport_timestamp) (λ m h. h.0) read.1
          (collect_sound (λ (e : Key × Value). e.0 ≡ e.0) since _
            (All-refl
              (L.range (await_flush L ok store).db (start_key topic since) (end_key topic)))))
        (gather-Later ok read.0 since topics)
