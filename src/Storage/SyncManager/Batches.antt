-- ===== src/Storage/SyncManager/Batches.antt =====
-- storage/syncManager.js: the batches of a session, and the mark that it leaves.
use p2p_app.Prelude.{
  ◌*◌, ◌≤◌, ◌≡◌, refl, sym, ◌∙◌, ap, String, List, [], ◌∷◌, ◌++◌, map, append-nil, append_assoc,
  arith, if-cases, length, All, Bool-cases, inl, inr, joined, take, drop, take-drop, length-drop,
  length-take-le, ◌==◌, Option-cases, lookup, eqb, remove,
}
use p2p_app.Metrics.{sync_acks_received_total}
use p2p_app.Protocol.Message.{Message}
use p2p_app.Protocol.MessageFactory.{Tools, Fresh, batch_of, create, create_base_message}
use p2p_app.Storage.Level.{Level}
use p2p_app.Storage.SyncManager.{
  SyncManager, Session, Running, Round, Outcome, acked, timed_out, Effect, sent, counted, gossiped,
  send_batch, settle, rounds, batch_size, receive_sync_ack, ack_timeout,
}

-- The payloads that were sent, each with its peer.
abbrev pub deliveries : List Effect → List (String × String)
deliveries [] = []
deliveries (sent peer_id m ∷ effects) = (peer_id, m.payload) ∷ deliveries effects
deliveries (counted c ∷ effects) = deliveries effects
deliveries (gossiped x ∷ effects) = deliveries effects

deliveries-append : (xs ys : List Effect) → deliveries (xs ++ ys) ≡ deliveries xs ++ deliveries ys
deliveries-append [] ys = refl
deliveries-append (sent peer_id m ∷ xs) ys = ap (◌∷◌ (peer_id, m.payload)) (deliveries-append xs ys)
deliveries-append (counted c ∷ xs) ys = deliveries-append xs ys
deliveries-append (gossiped x ∷ xs) ys = deliveries-append xs ys

abbrev pub IsBatch : List Message → Type 0
IsBatch ms = (1 ≤ length ms) × (length ms ≤ batch_size)

length-take-pos : (ms : List Message) → 1 ≤ length ms → 1 ≤ length (take batch_size ms)
length-take-pos [] h = h
length-take-pos (m ∷ ms) h = omega arith

length_zero : (ms : List Message) → length ms ≡ 0 → ms ≡ []
length_zero [] h = refl
length_zero (m ∷ ms) h = absurd (omega arith)

module _ {L : Level} where
  -- A settled wait changes the pending entries and counters alone.
  pub record Settled (r s : Running L) : Type 0 where
    pub same_session : s.session ≡ r.session
    pub same_store : s.manager.store ≡ r.manager.store
    pub same_status : s.manager.is_open ≡ r.manager.is_open
    pub same_deliveries : deliveries s.effects ≡ deliveries r.effects

  unaltered : (r : Running L) → Settled r (record r { effects = r.effects ++ [] })
  unaltered r = record {
    same_session = refl;
    same_store = refl;
    same_status = refl;
    same_deliveries = ap deliveries (append-nil r.effects);
  }

  pub settle-Settled :
      (o : Outcome) (batch_id : String) (r : Running L) → Settled r (settle L o batch_id r)
  unfolding settle receive_sync_ack ack_timeout
  settle-Settled timed_out batch_id r = record {
    same_session = refl;
    same_store = refl;
    same_status = refl;
    same_deliveries = refl;
  }
  settle-Settled acked batch_id r =
      elim (Option-cases (lookup r.session.peer_id r.manager.pending_acks)) [
        | inl e ↦ rw (settle, receive_sync_ack, e) (unaltered r)
        | inr (pending, e) ↦
            rw (settle, receive_sync_ack, e)
              (if-cases
                (λ (p : SyncManager L × List Effect).
                  Settled r (record r { manager = p.0; effects = r.effects ++ p.1 }))
                (eqb pending batch_id)
                (
                  record r.manager {
                    pending_acks = remove r.session.peer_id r.manager.pending_acks;
                  },
                  counted sync_acks_received_total ∷ [],
                )
                (r.manager, [])
                (λ _. record {
                  same_session = refl;
                  same_store = refl;
                  same_status = refl;
                  same_deliveries =
                      deliveries-append r.effects (counted sync_acks_received_total ∷ [])
                      ∙ append-nil (deliveries r.effects);
                })
                (λ _. unaltered r))
      ]

  send_batch-deliveries :
      (tools : Tools) (fresh : Fresh) (r : Running L)
      → deliveries (send_batch L tools fresh r).effects
        ≡ deliveries r.effects
          ++ (r.session.peer_id, tools.stringify (batch_of (take batch_size r.session.rest))) ∷ []
  unfolding send_batch create create_base_message
  send_batch-deliveries tools fresh r = deliveries-append r.effects _

  -- What is known of a run from `r` to `s` that sends the batches `sent_batches`.
  pub record Delivers (tools : Tools) (r s : Running L) (batches : List (List Message))
      : Type 0 where
    pub all_sent : s.session.rest ≡ []
    pub in_order : joined batches ≡ r.session.rest
    pub sized : All IsBatch batches
    pub delivered :
        deliveries s.effects
        ≡ deliveries r.effects
          ++ map (λ ms. (r.session.peer_id, tools.stringify (batch_of ms))) batches

  rounds_done : (tools : Tools) (r : Running L) → length r.session.rest ≡ 0 → Delivers tools r r []
  rounds_done tools r e = record {
    all_sent = length_zero r.session.rest e;
    in_order = sym (length_zero r.session.rest e);
    sized = tt;
    delivered = sym (append-nil (deliveries r.effects));
  }

  abbrev next_running : Tools → Round → Running L → Running L
  next_running tools round r =
      settle L round.outcome round.fresh.id (send_batch L tools round.fresh r)

  next_running-session :
      (tools : Tools) (round : Round) (r : Running L)
      → (next_running tools round r).session
        ≡ record r.session { rest = drop batch_size r.session.rest }
  unfolding send_batch
  next_running-session tools round r =
      (settle-Settled round.outcome round.fresh.id (send_batch L tools round.fresh r)).same_session

  next_running-deliveries :
      (tools : Tools) (round : Round) (r : Running L)
      → deliveries (next_running tools round r).effects
        ≡ deliveries r.effects
          ++ (r.session.peer_id, tools.stringify (batch_of (take batch_size r.session.rest))) ∷ []
  next_running-deliveries tools round r =
      (settle-Settled round.outcome round.fresh.id
        (send_batch L tools round.fresh r)).same_deliveries
      ∙ send_batch-deliveries tools round.fresh r

  first_batch :
      (tools : Tools) (round : Round) (r s : Running L) (batches : List (List Message))
      → 1 ≤ length r.session.rest
      → Delivers tools (next_running tools round r) s batches
      → Delivers tools r s (take batch_size r.session.rest ∷ batches)
  first_batch tools round r s batches filled d =
      let same = next_running-session tools round r in
      let label : String → List Message → String × String =
        λ peer ms. (peer, tools.stringify (batch_of ms)) in
      let this = label r.session.peer_id (take batch_size r.session.rest) in
      record {
        all_sent = d.all_sent;
        in_order =
            ap (λ ms. take batch_size r.session.rest ++ ms)
              (d.in_order ∙ ap (λ (x : Session). x.rest) same)
            ∙ take-drop batch_size r.session.rest;
        sized = (
          (length-take-pos r.session.rest filled, length-take-le batch_size r.session.rest),
          d.sized,
        );
        delivered =
            d.delivered
            ∙ (ap
                  (λ (x : Session).
                    deliveries (next_running tools round r).effects
                    ++ map (label x.peer_id) batches)
                  same
                ∙ (ap (λ ds. ds ++ map (label r.session.peer_id) batches)
                      (next_running-deliveries tools round r)
                    ∙ append_assoc (deliveries r.effects) (this ∷ [])
                        (map (label r.session.peer_id) batches)));
      }

  -- However each wait ends, by an acknowledgement or a timeout, with as many rounds as there are
  -- batches of a hundred the session sends everything: the payloads handed to the peer's connection
  -- are those of batches of one to a hundred messages which together are the messages to send, each
  -- once and in their order, and nothing is left to send.
  pub rounds-Delivers :
      (tools : Tools) (r : Running L) (rs : List Round)
      → length r.session.rest ≤ batch_size * length rs
      → (batches : List (List Message)) × Delivers tools r (rounds L tools r rs) batches
  unfolding rounds
  rounds-Delivers tools r [] enough = ([], rounds_done tools r (omega arith))
  rounds-Delivers tools r (round ∷ more) enough = elim (Bool-cases (length r.session.rest == 0)) [
    | inl e ↦ rw e ([], rounds_done tools r (ground arith))
    | inr e ↦
        let next = next_running tools round r in
        let shorter : length next.session.rest ≤ batch_size * length more = omega (
          arith,
          ap (λ (x : Session). length x.rest) (next_running-session tools round r),
          length-drop batch_size r.session.rest,
        ) in
        let (batches, d) = rounds-Delivers tools next more shorter in
        rw e (
          take batch_size r.session.rest ∷ batches,
          first_batch tools round r (rounds L tools next more) batches (ground arith) d,
        )
  ]
