-- ===== src/Storage/Keys.antt =====
-- storage/messageStore.js: the keys of the database, as lists of code points. LevelDB orders keys by
-- the bytes of their UTF-8, which is the order of the code points.
pub mod Order
use Prim.Native.Char.{code}
use Prim.Native.String.{String}
use p2p_app.Prelude.{
  ℕ, zero, suc, ◌+◌, ◌-◌, ◌/◌, ◌%◌, Bool, true, false, ◌&&◌, List, [], ◌∷◌, ◌++◌, length, ltb, ◌==◌,
  if◌then◌else◌,
}

abbrev pub Key : Type 0
Key = List ℕ

-- The code points of a text.
abbrev pub codes : String → Key
codes String.[] = []
codes (String.◌∷◌ c s) = code c ∷ codes s

-- `k <= j` in the order of the database.
unfoldable pub leq : Key → Key → Bool
leq [] ys = true
leq (x ∷ xs) [] = false
leq (x ∷ xs) (y ∷ ys) = let rest = leq xs ys in if ltb x y then true else x == y && rest

unfoldable pub eq_key : Key → Key → Bool
eq_key [] [] = true
eq_key (x ∷ xs) (y ∷ ys) = x == y && eq_key xs ys
eq_key _ _ = false

-- `String(n)`, in front of `out`. Each round takes a digit off, so `n + 1` is enough fuel.
unfoldable pub decimal_from : ℕ → ℕ → Key → Key
decimal_from zero n out = out
decimal_from (suc fuel) n out =
    let rest = decimal_from fuel (n / 10) ((48 + n % 10) ∷ out) in
    if n / 10 == 0 then (48 + n % 10) ∷ out else rest

unfoldable pub decimal : ℕ → Key
unfolding decimal_from
decimal n = decimal_from (n + 1) n []

unfoldable pub zeros : ℕ → Key
zeros zero = []
zeros (suc n) = 48 ∷ zeros n

-- `String(n).padStart(15, '0')`.
unfoldable pub padded : ℕ → Key
unfolding decimal zeros
padded n = let digits = decimal n in zeros (15 - length digits) ++ digits

-- The prefix 'msg:' with the topic and a colon.
unfoldable pub topic_prefix : String → Key
topic_prefix topic = 109 ∷ 115 ∷ 103 ∷ 58 ∷ codes topic ++ 58 ∷ []

unfoldable pub make_key : String → ℕ → String → Key
unfolding topic_prefix padded
make_key topic lamport_timestamp message_id =
    topic_prefix topic ++ (padded lamport_timestamp ++ 58 ∷ codes message_id)

-- `id:${messageId}`.
unfoldable pub id_key : String → Key
id_key message_id = 105 ∷ 100 ∷ 58 ∷ codes message_id

-- `receipt:${messageId}:${peerId}`.
unfoldable pub receipt_key : String → String → Key
receipt_key message_id peer_id =
    114 ∷ 101 ∷ 99 ∷ 101 ∷ 105 ∷ 112 ∷ 116 ∷ 58 ∷ codes message_id ++ 58 ∷ codes peer_id

-- The bounds of the range scan of `getByTopic`; 126 is '~'.
unfoldable pub start_key : String → ℕ → Key
unfolding topic_prefix padded
start_key topic since = topic_prefix topic ++ (padded since ++ 58 ∷ [])

unfoldable pub end_key : String → Key
unfolding topic_prefix
end_key topic = topic_prefix topic ++ 126 ∷ []
