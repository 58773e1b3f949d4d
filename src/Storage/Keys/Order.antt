-- ===== src/Storage/Keys/Order.antt =====
-- storage/messageStore.js: the order of the padded keys is the order of the timestamps.
use native.Mathlib.Nat.{pow-succ'}
use p2p_app.Prelude.{
  ℕ, zero, suc, ◌+◌, ◌-◌, ◌/◌, ◌%◌, ◌^◌, ◌<◌, String, ◌≡◌, refl, ◌∙◌, sym, ap, true, inl, inr, [],
  ◌∷◌, ◌++◌, append_assoc, length, length-append, ◌==◌, arith, Bool-cases, dec_lt, lt→ltb,
}
use p2p_app.Storage.Keys.{
  Key, leq, decimal_from, decimal, zeros, padded, topic_prefix, make_key, start_key, end_key, codes,
}

pub leq-append : (p xs ys : Key) → leq (p ++ xs) (p ++ ys) ≡ leq xs ys
unfolding leq
leq-append [] xs ys = refl
leq-append (c ∷ p) xs ys = ground (arith, leq-append p xs ys)

-- `n` in exactly `w` digits, where it fits.
fixed : ℕ → ℕ → Key
fixed zero n = []
fixed (suc w) n = fixed w (n / 10) ++ (48 + n % 10) ∷ []

fixed-zero : (w : ℕ) → fixed w 0 ≡ zeros w
unfolding fixed zeros
fixed-zero zero = refl
fixed-zero (suc w) = ap (λ (ks : Key). ks ++ 48 ∷ []) (fixed-zero w) ∙ zeros_snoc w
  where
    zeros_snoc : (n : ℕ) → zeros n ++ 48 ∷ [] ≡ 48 ∷ zeros n
    zeros_snoc zero = refl
    zeros_snoc (suc n) = ap (◌∷◌ 48) (zeros_snoc n)

decimal_from-append :
    (fuel n : ℕ) (out : Key) → decimal_from fuel n out ≡ decimal_from fuel n [] ++ out
unfolding decimal_from
decimal_from-append zero n out = refl
decimal_from-append (suc fuel) n out =
    let digit = 48 + n % 10 in
    let more =
      decimal_from-append fuel (n / 10) (digit ∷ out)
      ∙ (sym (append_assoc (decimal_from fuel (n / 10) []) (digit ∷ []) out)
          ∙ ap (λ (ks : Key). ks ++ out) (sym (decimal_from-append fuel (n / 10) (digit ∷ [])))) in
    elim (Bool-cases (n / 10 == 0)) [ inl e ↦ rw e | inr e ↦ rw e more ]

tenth_lt : (w b : ℕ) → b < 10 ^ suc w → b / 10 < 10 ^ w
tenth_lt w b h = omega (arith, pow-succ' 10 w)

digit_lt :
    (a b : ℕ) (xs ys : Key)
    → a / 10 ≡ b / 10
    → a < b
    → leq ((48 + a % 10) ∷ xs) ((48 + b % 10) ∷ ys) ≡ true
unfolding leq
digit_lt a b xs ys e h =
    let lower : 48 + a % 10 < 48 + b % 10 = omega arith in
    rw (lt→ltb (48 + a % 10) (48 + b % 10) lower)

-- Two numbers of the same width compare as their digits do, whatever follows.
leq-fixed :
    (w a b : ℕ) (xs ys : Key) → a < b → b < 10 ^ w → leq (fixed w a ++ xs) (fixed w b ++ ys) ≡ true
unfolding fixed
leq-fixed zero a b xs ys h small = absurd (omega arith)
leq-fixed (suc w) a b xs ys h small =
    rw
      (
        append_assoc (fixed w (a / 10)) ((48 + a % 10) ∷ []) xs,
        append_assoc (fixed w (b / 10)) ((48 + b % 10) ∷ []) ys,
      )
      (elim (dec_lt (a / 10) (b / 10)) [
        | yes lower ↦
            leq-fixed w (a / 10) (b / 10) ((48 + a % 10) ∷ xs) ((48 + b % 10) ∷ ys) lower
              (tenth_lt w b small)
        | no same ↦
            let e : a / 10 ≡ b / 10 = omega arith in
            rw e (
              leq-append (fixed w (b / 10)) ((48 + a % 10) ∷ xs) ((48 + b % 10) ∷ ys)
              ∙ digit_lt a b xs ys e h)
      ])

-- The digits of a number that fits in `w + 1` of them, filled up with zeros, are `fixed`.
zeros-decimal_from :
    (w fuel n : ℕ)
    → n < fuel
    → n < 10 ^ suc w
    → zeros (suc w - length (decimal_from fuel n [])) ++ decimal_from fuel n [] ≡ fixed (suc w) n
unfolding decimal_from fixed zeros
zeros-decimal_from w zero n h small = absurd (omega arith)
zeros-decimal_from zero (suc fuel) n h small =
    let e : n / 10 ≡ 0 = omega (arith, pow-succ' 10 0) in rw (e, decimal_from) refl
zeros-decimal_from (suc w) (suc fuel) n h small = elim (Bool-cases (n / 10 == 0)) [
  | inl done ↦
      let e : n / 10 ≡ 0 = ground arith in
      let width : suc (suc w) - 1 ≡ suc w = omega arith in
      rw (done, e, width) (ap (λ (ks : Key). ks ++ (48 + n % 10) ∷ []) (sym (fixed-zero (suc w))))
  | inr more ↦
      let rest = decimal_from fuel (n / 10) [] in
      let induction =
        zeros-decimal_from w fuel (n / 10) (ground arith) (tenth_lt (suc w) n small) in
      let width : suc (suc w) - length (rest ++ (48 + n % 10) ∷ []) ≡ suc w - length rest =
        omega (arith, length-append rest ((48 + n % 10) ∷ [])) in
      rw (more, decimal_from-append fuel (n / 10) ((48 + n % 10) ∷ []), width)
        (sym (append_assoc (zeros (suc w - length rest)) rest ((48 + n % 10) ∷ []))
          ∙ ap (λ (ks : Key). ks ++ (48 + n % 10) ∷ []) induction)
]

padded-fixed : (n : ℕ) → n < 10 ^ 15 → padded n ≡ fixed 15 n
unfolding padded decimal
padded-fixed n small = zeros-decimal_from 14 (n + 1) n (omega arith) small

-- What follows the digits decides nothing, so a bound below the timestamp is below its key.
pub start_key-make_key :
    (topic message_id : String) (since ts : ℕ)
    → since < ts
    → ts < 10 ^ 15
    → leq (start_key topic since) (make_key topic ts message_id) ≡ true
unfolding start_key make_key
start_key-make_key topic message_id since ts later small =
    rw
      (
        leq-append (topic_prefix topic) (padded since ++ 58 ∷ [])
            (padded ts ++ 58 ∷ codes message_id),
        padded-fixed since (omega arith),
        padded-fixed ts small,
      )
      (leq-fixed 15 since ts (58 ∷ []) (58 ∷ codes message_id) later small)

-- A key of at least one digit is below a character after the digits.
leq-head : (w n c : ℕ) (xs ys : Key) → 57 < c → leq (fixed (suc w) n ++ xs) (c ∷ ys) ≡ true
unfolding fixed leq
leq-head zero n c xs ys letter =
    let low : 48 + n % 10 < c = omega arith in rw (lt→ltb (48 + n % 10) c low) refl
leq-head (suc w) n c xs ys letter =
    rw (append_assoc (fixed (suc w) (n / 10)) ((48 + n % 10) ∷ []) xs)
      (leq-head w (n / 10) c ((48 + n % 10) ∷ xs) ys letter)

pub make_key-end_key :
    (topic message_id : String) (ts : ℕ)
    → ts < 10 ^ 15
    → leq (make_key topic ts message_id) (end_key topic) ≡ true
unfolding make_key end_key
make_key-end_key topic message_id ts small =
    rw
      (
        leq-append (topic_prefix topic) (padded ts ++ 58 ∷ codes message_id) (126 ∷ []),
        padded-fixed ts small,
      )
      (leq-head 14 ts 126 (58 ∷ codes message_id) [] (omega arith))

-- The key of a topic that continues `topic` with a colon and the character `c`.
longer_topic :
    (a rest tail : Key) (c : ℕ)
    → ((a ++ 58 ∷ c ∷ rest) ++ 58 ∷ []) ++ tail ≡ (a ++ 58 ∷ []) ++ (c ∷ (rest ++ 58 ∷ tail))
longer_topic [] rest tail c = ap (λ (ks : Key). 58 ∷ c ∷ ks) (append_assoc rest (58 ∷ []) tail)
longer_topic (x ∷ a) rest tail c = ap (◌∷◌ x) (longer_topic a rest tail c)

make_key-longer :
    (topic longer message_id : String) (c ts : ℕ) (rest : Key)
    → codes longer ≡ codes topic ++ 58 ∷ c ∷ rest
    → make_key longer ts message_id
      ≡ topic_prefix topic ++ (c ∷ (rest ++ 58 ∷ (padded ts ++ 58 ∷ codes message_id)))
unfolding make_key topic_prefix
make_key-longer topic longer message_id c ts rest e =
    let tail = padded ts ++ 58 ∷ codes message_id in
    ap (λ (ks : Key). 109 ∷ 115 ∷ 103 ∷ 58 ∷ ((ks ++ 58 ∷ []) ++ tail)) e
    ∙ ap (λ (ks : Key). 109 ∷ 115 ∷ 103 ∷ 58 ∷ ks) (longer_topic (codes topic) rest tail c)

pub start_key-longer :
    (topic longer message_id : String) (since c ts : ℕ) (rest : Key)
    → since < 10 ^ 15
    → 57 < c
    → codes longer ≡ codes topic ++ 58 ∷ c ∷ rest
    → leq (start_key topic since) (make_key longer ts message_id) ≡ true
unfolding start_key
start_key-longer topic longer message_id since c ts rest small letter e =
    let tail = rest ++ 58 ∷ (padded ts ++ 58 ∷ codes message_id) in
    ap (leq (start_key topic since)) (make_key-longer topic longer message_id c ts rest e)
    ∙ (leq-append (topic_prefix topic) (padded since ++ 58 ∷ []) (c ∷ tail)
        ∙ (ap (λ (ks : Key). leq (ks ++ 58 ∷ []) (c ∷ tail)) (padded-fixed since small)
            ∙ leq-head 14 since c (58 ∷ []) tail letter))

pub longer-end_key :
    (topic longer message_id : String) (c ts : ℕ) (rest : Key)
    → c < 126
    → codes longer ≡ codes topic ++ 58 ∷ c ∷ rest
    → leq (make_key longer ts message_id) (end_key topic) ≡ true
unfolding end_key leq
longer-end_key topic longer message_id c ts rest low e =
    let tail = rest ++ 58 ∷ (padded ts ++ 58 ∷ codes message_id) in
    ap (λ (ks : Key). leq ks (end_key topic)) (make_key-longer topic longer message_id c ts rest e)
    ∙ (leq-append (topic_prefix topic) (c ∷ tail) (126 ∷ []) ∙ rw (lt→ltb c 126 low) refl)
