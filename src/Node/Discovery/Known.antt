-- ===== src/Node/Discovery/Known.antt =====
-- node/discovery/: what the node knows after any discoveries.
use p2p_app.Prelude.{
  ℕ, String, ◌≡◌, ◌≢◌, true, false, not, ◌&&◌, List, [], ◌∷◌, some, Option-cases, inl, inr, lookup,
  lookup-insert, has_key, lookup-has_key, has_key-insert, same, ite, eqb, if-cases, All, arith,
}
use p2p_app.Node.State.{PeerInfo, connecting, has_peer, set_peer}
use p2p_app.Node.Peers
use p2p_app.Node.PeerExchange
use p2p_app.Node.Peers.{Peers, add_peer}
use p2p_app.Node.PeerExchange.{Address, handle_response}
use p2p_app.Node.Discovery.Mdns.{MdnsDiscovery, Update, peer_of, read_txt, on_update}
use p2p_app.Node.Discovery.Bootstrap.{attempt_bootstrap}

-- What discovery finds: an announcement on the local network, an attempt for a configured node, and a
-- list from a peer.
pub data Found : Type 0 where
  announced : Update → Found
  configured : Address → Found
  listed : List Address → Found

-- The handle of a peer's client, the time, and the reading of a number.
pub record Surroundings : Type 0 where
  pub handle : String → ℕ
  pub now : ℕ
  pub parse_int : String → ℕ

unfoldable pub find : Surroundings → MdnsDiscovery → Peers → Found → Peers
find w d s (announced update) = (on_update w.parse_int w.handle w.now d s update).0
find w d s (configured node) = (attempt_bootstrap w.handle w.now s node).0
find w d s (listed peers) = (handle_response w.handle w.now d.local_peer_id s peers).0

unfoldable pub find_all : Surroundings → MdnsDiscovery → Peers → List Found → Peers
find_all w d s [] = s
find_all w d s (found ∷ rest) = find_all w d (find w d s found) rest

-- One table of peers grows to another: what was known stays as it was, and `local` is not added.
pub record Grows (local : String) (s t : Peers) : Type 0 where
  pub kept :
      (id : String) (info : PeerInfo)
      → lookup id s.state.peers ≡ some info
      → lookup id t.state.peers ≡ some info
  pub not_self : has_peer s.state local ≡ false → has_peer t.state local ≡ false

Grows-refl : {local : String} (s : Peers) → Grows local s s
Grows-refl s = record { kept = λ id info h. h; not_self = λ h. h }

Grows-trans : {local : String} {s t u : Peers} → Grows local s t → Grows local t u → Grows local s u
Grows-trans one two = record {
  kept = λ id info h. two.kept id info (one.kept id info h);
  not_self = λ h. two.not_self (one.not_self h);
}

add_peer-Grows :
    (local : String) (s : Peers) (id host : String) (port handle now : ℕ)
    → id ≢ local
    → Grows local s (add_peer s id host port handle now).0
unfolding add_peer has_peer set_peer
add_peer-Grows local s id host port handle now other =
    let info : PeerInfo = record {
      host = host;
      port = port;
      last_seen = now;
      status = connecting;
      lamport_time = 0;
    } in
    if-cases (λ (r : Peers × List Peers.Effect). Grows local s r.0) (has_key id s.state.peers) _ _
      (λ known. Grows-refl s)
      (λ new. record {
        kept = λ q old h. ground (
          arith,
          lookup-insert id q info s.state.peers,
          lookup-has_key q {v = old} s.state.peers,
        );
        not_self = λ h. ground (arith, has_key-insert id local info s.state.peers);
      })

on_update-Grows :
    (w : Surroundings) (d : MdnsDiscovery) (s : Peers) (update : Update)
    → Grows d.local_peer_id s (on_update w.parse_int w.handle w.now d s update).0
unfolding on_update
on_update-Grows w d s update = elim (Option-cases update.txt) [
  | inl e ↦ rw (on_update, e) (Grows-refl s)
  | inr (txt, e) ↦ elim (Option-cases (peer_of w.parse_int (read_txt [] txt) update.addresses)) [
    | inl f ↦ rw (on_update, e, f) (Grows-refl s)
    | inr (found, f) ↦
        rw (on_update, e, f)
          (if-cases (λ (r : Peers × List Peers.Effect). Grows d.local_peer_id s r.0)
            (eqb found.0 d.local_peer_id) _ _ (λ own. Grows-refl s)
            (λ other.
              add_peer-Grows d.local_peer_id s found.0 found.1 found.2 (w.handle found.0) w.now
                (ground arith)))
  ]
]

handle_response-Grows :
    (handle : String → ℕ) (now : ℕ) (local : String) (peers : List Address) (s : Peers)
    → Grows local s (handle_response handle now local s peers).0
unfolding handle_response
handle_response-Grows handle now local [] s = Grows-refl s
handle_response-Grows handle now local (peer ∷ peers) s =
    if-cases (λ (r : Peers × List PeerExchange.Effect). Grows local s r.0)
      (not (eqb peer.peer_id local) && not (has_peer s.state peer.peer_id)) _ _
      (λ taken.
        Grows-trans
          (add_peer-Grows local s peer.peer_id peer.host peer.port (handle peer.peer_id) now
            (ground arith))
          (handle_response-Grows handle now local peers
            (add_peer s peer.peer_id peer.host peer.port (handle peer.peer_id) now).0))
      (λ skipped. handle_response-Grows handle now local peers s)

-- The configuration does not name the node itself by its id.
abbrev pub IsOther : String → Found → Type 0
IsOther local (configured node) = node.peer_id ≢ local
IsOther local _ = Unit {0}

find-Grows :
    (w : Surroundings) (d : MdnsDiscovery) (s : Peers) (found : Found)
    → IsOther d.local_peer_id found
    → Grows d.local_peer_id s (find w d s found)
unfolding find attempt_bootstrap
find-Grows w d s (announced update) other = on_update-Grows w d s update
find-Grows w d s (configured node) other =
    add_peer-Grows d.local_peer_id s node.peer_id node.host node.port (w.handle node.peer_id) w.now
      other
find-Grows w d s (listed peers) other = handle_response-Grows w.handle w.now d.local_peer_id peers s

-- Whatever is announced, configured or listed, and in whatever order: a peer that is known stays with
-- the address, the status and the times that it has, and the node does not take itself for a peer, if
-- no configured node has its id.
pub find_all-Grows :
    (w : Surroundings) (d : MdnsDiscovery) (s : Peers) (found : List Found)
    → All (IsOther d.local_peer_id) found
    → Grows d.local_peer_id s (find_all w d s found)
unfolding find_all
find_all-Grows w d s [] others = Grows-refl s
find_all-Grows w d s (f ∷ found) others =
    Grows-trans (find-Grows w d s f others.0) (find_all-Grows w d (find w d s f) found others.1)

has_peer-add_peer :
    (s : Peers) (id host : String) (port handle now : ℕ) (q : String)
    → has_peer (add_peer s id host port handle now).0.state q
      ≡ ite (same id q) true (has_peer s.state q)
unfolding add_peer has_peer set_peer
has_peer-add_peer s id host port handle now q = ground (
  arith,
  has_key-insert id q
      (record { host = host; port = port; last_seen = now; status = connecting; lamport_time = 0 })
      s.state.peers,
)

-- A configured node that is known under the placeholder of its index is added once more under its own
-- id, when a peer lists it.
pub find-placeholder :
    (w : Surroundings) (d : MdnsDiscovery) (s : Peers) (node : Address) (id : String)
    → id ≢ d.local_peer_id
    → has_peer (find w d s (configured node)).state id ≡ false
    → let after =
        find w d (find w d s (configured node)) (listed (record node { peer_id = id } ∷ [])) in
      (has_peer after.state node.peer_id ≡ true) × (has_peer after.state id ≡ true)
unfolding find attempt_bootstrap handle_response
find-placeholder w d s node id other new =
    let first = (add_peer s node.peer_id node.host node.port (w.handle node.peer_id) w.now).0 in
    ground (
      arith,
      has_peer-add_peer s node.peer_id node.host node.port (w.handle node.peer_id) w.now
          node.peer_id,
      has_peer-add_peer first id node.host node.port (w.handle id) w.now node.peer_id,
      has_peer-add_peer first id node.host node.port (w.handle id) w.now id,
    )
