-- ===== src/Board/Command.antt =====
-- One message of a client, from `recvfrom` to the reply (csieBulletinBoard/server.c, `main`).
use system_design.Base.{
  ℕ, Bool, false, ◌&&◌, ◌||◌, [], ◌∷◌, Option, some, if◌then◌else◌, ◌==◌, ◌>>=◌, text_eq,
}
use system_design.Board.State.{Text, codes, Server}
use system_design.Board.Post.{post}
use system_design.Board.Pull.{pull}
use system_design.Board.Submit.{split_plus, assign_tokens, store_post}

-- The four bytes "[SP]".
abbrev pub is_marker : ℕ → ℕ → ℕ → ℕ → Bool
is_marker a b c d = a == b'[' && b == b'S' && c == b'P' && d == b']'

-- `strstr(command, "[SP]") != NULL`
unfoldable pub has_marker : Text → Bool
has_marker (a ∷ b ∷ c ∷ d ∷ t) = is_marker a b c d || has_marker (b ∷ c ∷ d ∷ t)
has_marker _ = false

-- `removeSubstr(command, "[SP]")`. After a removal the search goes on one byte behind the place of
-- the match, so the byte that moved there is kept unread.
unfoldable pub remove_marker : Text → Text
remove_marker (a ∷ b ∷ c ∷ d ∷ e ∷ t) =
    let kept = a ∷ remove_marker (b ∷ c ∷ d ∷ e ∷ t) in
    let removed = e ∷ remove_marker t in if is_marker a b c d then removed else kept
remove_marker (a ∷ b ∷ c ∷ d ∷ []) = if is_marker a b c d then [] else a ∷ b ∷ c ∷ d ∷ []
remove_marker t = t

-- What the server does on the connection.
pub data Reply : Type 0 where
  silent closed : Reply
  sent : Text → Reply

unfoldable pub submit : ℕ → Text → Server → Option Server
submit conn command s = store_post conn (assign_tokens (split_plus [] (remove_marker command)) s)

unfoldable pub handle : (ℕ → Bool) → ℕ → Text → Server → Option (Server × Reply)
handle others conn command s =
    if has_marker command
    then (do s' ← submit conn command s; some (s', silent))
    else if text_eq command (codes "post")
    then (let (s', reply) = post others conn s in some (s', sent reply))
    else if text_eq command (codes "pull")
    then (let v = pull others s in some (v.server, sent v.temp))
    else some (s, (if text_eq command (codes "exit") then closed else silent))
