-- ===== src/Node/Discovery/Mdns.antt =====
-- node/discovery/mdnsDiscovery.js: announcing the node on the local network and what becomes of the
-- announcements of others. mdns-js is outside: whether its calls throw is an argument.
use Prim.Native.Char.{code}
use p2p_app.Prelude.{
  ℕ, zero, suc, String, Bool, List, [], ◌∷◌, ◌++◌, Option, none, some, Dict, lookup, insert, eqb,
  ◌==◌, if◌then◌else◌,
}
use p2p_app.Node.Peers
use p2p_app.Node.Peers.{Peers, add_peer}

pub data Effect : Type 0 where
  advertised browsed : Effect
  ad_stopped browser_stopped : Effect

-- Which of the calls succeed.
pub record Available : Type 0 where
  pub advertise : Bool
  pub browse : Bool

pub record MdnsDiscovery : Type 0 where
  pub local_peer_id : String
  pub port : ℕ
  pub ad : Bool
  pub browser : Bool

unfoldable pub start : Available → MdnsDiscovery → MdnsDiscovery × List Effect
start available d = (
  record d { ad = available.advertise; browser = available.browse },
  (if available.advertise then advertised ∷ [] else [])
      ++ (if available.browse then browsed ∷ [] else []),
)

unfoldable pub stop : MdnsDiscovery → List Effect
stop d = (if d.ad then ad_stopped ∷ [] else []) ++ (if d.browser then browser_stopped ∷ [] else [])

-- `curr.split('=')`: the first two parts.
unfoldable pub key_part : String → String
key_part String.[] = String.[]
key_part (String.◌∷◌ c s) =
    let rest = key_part s in if code c == 61 then String.[] else String.◌∷◌ c rest

unfoldable pub value_part : String → Option String
unfolding key_part
value_part String.[] = none
value_part (String.◌∷◌ c s) =
    let rest = value_part s in if code c == 61 then some (key_part s) else rest

-- The `reduce` over the entries.
unfoldable pub read_txt : Dict (Option String) → List String → Dict (Option String)
unfolding key_part value_part
read_txt acc [] = acc
read_txt acc (entry ∷ txt) = read_txt (insert (key_part entry) (value_part entry) acc) txt

-- An announcement: the texts, or none, and the addresses.
pub record Update : Type 0 where
  pub txt : Option (List String)
  pub addresses : List String

-- A value that the test of the handler takes: neither absent nor empty.
unfoldable pub filled : Option (Option String) → Option String
filled none = none
filled (some none) = none
filled (some (some s)) = if eqb s "" then none else some s

unfoldable pub first_address : List String → Option String
unfolding filled
first_address [] = none
first_address (host ∷ hosts) = filled (some (some host))

-- `parse_int` is `parseInt`, with 0 where that gives NaN.
module _ (parse_int : String → ℕ) where
  unfoldable pub port_of : Option (Option String) → ℕ
  port_of none = 0
  port_of (some none) = 0
  port_of (some (some s)) = parse_int s

  -- The peer that an announcement names.
  unfoldable pub peer_of : Dict (Option String) → List String → Option (String × String × ℕ)
  unfolding filled port_of first_address
  peer_of txt addresses = elim (filled (lookup "peerId" txt)) [
    | none ↦ none
    | some peer_id ↦ elim (first_address addresses) [
      | none ↦ none
      | some host ↦ elim (port_of (lookup "port" txt)) [
        | zero ↦ none
        | suc n ↦ some (peer_id, host, suc n)
      ]
    ]
  ]

  -- The handler of 'update'; `handle` is that of the client that the pool makes.
  unfoldable pub on_update :
      (String → ℕ) → ℕ → MdnsDiscovery → Peers → Update → Peers × List Peers.Effect
  unfolding peer_of read_txt
  on_update handle now d s update = elim update.txt [
    | none ↦ (s, [])
    | some txt ↦ elim (peer_of (read_txt [] txt) update.addresses) [
      | none ↦ (s, [])
      | some (peer_id, host, port) ↦
          if eqb peer_id d.local_peer_id
          then (s, [])
          else add_peer s peer_id host port (handle peer_id) now
    ]
  ]
