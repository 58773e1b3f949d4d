-- ===== src/Client/CliClient/Words.antt =====
-- client/cliClient.js: splitting a line into words and joining them, and trimming it.
use Prim.Native.Char.{Char, code}
use text.Mathlib.TextEquality.{Char-path}
use p2p_app.Prelude.{
  String, ◌≡◌, ◌≢◌, refl, sym, ◌∙◌, ap, inl, inr, false, List, [], ◌∷◌, Bool-cases, ◌==◌, if-cases,
  arith,
}
use p2p_app.Node.Commands.{is_space}
use p2p_app.Client.CliClient.{appended, trim_start, trim_end, trim, prepend, split, join_words}

-- A text without a blank.
abbrev pub IsWord : String → Type 0
IsWord String.[] = Unit {0}
IsWord (String.◌∷◌ c s) = ((code c == 32) ≡ false) × IsWord s

split_some : (s : String) → (w : String) × (ws : List String) × (split s ≡ w ∷ ws)
unfolding split prepend
split_some String.[] = ("", [], refl)
split_some (String.◌∷◌ c s) =
    let (w, ws, e) = split_some s in
    elim (Bool-cases (code c == 32)) [
      | inl blank ↦ ("", w ∷ ws, rw (blank, e) refl)
      | inr letter ↦ (String.◌∷◌ c w, ws, rw (letter, e) refl)
    ]

-- A word in front of a blank is split off.
pub split-appended : (w s : String) → IsWord w → split (appended w (String.◌∷◌ " " s)) ≡ w ∷ split s
unfolding split prepend appended
split-appended String.[] s h = refl
split-appended (String.◌∷◌ c w) s h = rw (split, h.0, split-appended w s h.1) refl

join_words-prepend :
    (c : Char) (w : String) (ws : List String)
    → join_words (prepend c (w ∷ ws)) ≡ String.◌∷◌ c (join_words (w ∷ ws))
unfolding join_words prepend appended
join_words-prepend c w [] = refl
join_words-prepend c w (v ∷ ws) = refl

-- Joining the words of a line gives the line back.
pub join_words-split : (s : String) → join_words (split s) ≡ s
unfolding join_words split
join_words-split String.[] = refl
join_words-split (String.◌∷◌ c s) =
    let (w, ws, e) = split_some s in
    let rest : join_words (w ∷ ws) ≡ s = ap join_words (sym e) ∙ join_words-split s in
    elim (Bool-cases (code c == 32)) [
      | inl blank ↦
          let same_char : c ≡ " " = Char-path c " " (ground arith) in
          rw (split, blank, e) (rw same_char (ap (String.◌∷◌ " ") rest))
      | inr letter ↦ rw (split, letter, e) (join_words-prepend c w ws ∙ ap (String.◌∷◌ c) rest)
    ]

-- A text that begins with no blank, as a trimmed line does.
pub data Begins : String → Type 0 where
  empty : Begins String.[]
  letter : (c : Char) (s : String) → is_space (code c) ≡ false → Begins (String.◌∷◌ c s)

trim_start-Begins : (s : String) → Begins (trim_start s)
unfolding trim_start
trim_start-Begins String.[] = empty
trim_start-Begins (String.◌∷◌ c s) =
    if-cases Begins (is_space (code c)) _ _ (λ blank. trim_start-Begins s)
      (λ first. letter c s first)

trim_end-Begins : {s : String} → Begins s → Begins (trim_end s)
unfolding trim_end
trim_end-Begins empty = empty
trim_end-Begins (letter c s first) = rw (trim_end, first) (letter c (trim_end s) first)

pub trim-Begins : (line : String) → Begins (trim line)
unfolding trim
trim-Begins line = trim_end-Begins (trim_start-Begins line)

pub appended_filled : (s t : String) → t ≢ "" → appended s t ≢ ""
unfolding appended
appended_filled String.[] t filled = filled
appended_filled (String.◌∷◌ c s) t filled = λ e. cc

-- What ends with no blank is not cut at its end, whatever stands in front.
pub trim_end-appended :
    (s t : String) → t ≢ "" → trim_end t ≡ t → trim_end (appended s t) ≡ appended s t
unfolding trim_end appended
trim_end-appended String.[] t filled kept = kept
trim_end-appended (String.◌∷◌ c s) t filled kept =
    ground (arith, trim_end-appended s t filled kept, appended_filled s t filled)
