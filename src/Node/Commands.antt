-- ===== src/Node/Commands.antt =====
-- node/index.js: the commands of the user that `publish` looks for.
use p2p_app.Prelude.{
  ℕ, String, Bool, true, false, ◌&&◌, ◌||◌, [], ◌∷◌, Option, none, some, leb, ◌==◌, if◌then◌else◌,
}
use p2p_app.Storage.Keys.{Key, codes}

pub data Mode : Type 0 where
  summary keypoints : Mode

-- `trim()` in front, where it matters for `startsWith`.
abbrev pub is_space : ℕ → Bool
is_space c =
    c == 32
    || leb 9 c && leb c 13
    || c == 160
    || c == 5760
    || leb 8192 c && leb c 8202
    || c == 8232
    || c == 8233
    || c == 8239
    || c == 8287
    || c == 12288
    || c == 65279

unfoldable pub trimmed : Key → Key
trimmed [] = []
trimmed (c ∷ cs) = let rest = trimmed cs in if is_space c then rest else c ∷ cs

unfoldable pub starts_with : Key → Key → Bool
starts_with [] cs = true
starts_with (p ∷ ps) [] = false
starts_with (p ∷ ps) (c ∷ cs) = p == c && starts_with ps cs

-- The command that a text of the user is.
unfoldable pub command_of : String → Option Mode
unfolding trimmed starts_with
command_of content =
    let text = trimmed (codes content) in
    if starts_with (codes "/keypoints") text
    then some keypoints
    else if starts_with (codes "/summary") text
    then some summary
    else none

abbrev pub mode_name : Mode → String
mode_name summary = "summary"
mode_name keypoints = "keypoints"
