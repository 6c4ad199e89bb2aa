-- ===== src/Board/Submit.antt =====
-- The message "[SP]from+content" of csieBulletinBoard/server.c: a client writes the post for which
-- it asked, and the parts of its text.
use system_design.Base.{
  ℕ, Bool, false, List, [], ◌∷◌, ◌++◌, Option, some, if◌then◌else◌, ltb, ◌==◌, ◌>>=◌, guard, ◌>>◌,
  update, length,
}
use system_design.Board.State.{Text, from_len, content_len, Server, unlock_slot}

-- `strtok` with the delimiter '+': the runs of other bytes. `word` is the part of a token that has
-- been read; an empty one is no token.
abbrev pub end_word : Text → List Text → List Text
end_word [] rest = rest
end_word (w ∷ ws) rest = (w ∷ ws) ∷ rest

unfoldable pub split_plus : Text → Text → List Text
split_plus word [] = end_word word []
split_plus word (c ∷ text) =
    let joined = split_plus (word ++ c ∷ []) text in
    let cut = split_plus [] text in if c == b'+' then end_word word cut else joined

abbrev pub last_token : Text → List Text → Text
last_token u [] = u
last_token u (w ∷ ws) = last_token w ws

-- The loop over the tokens: the first goes to `str1`, each later one to `str2`.
unfoldable pub assign_tokens : List Text → Server → Server
assign_tokens [] s = s
assign_tokens (t ∷ []) s = record s { str1 = t }
assign_tokens (t ∷ u ∷ us) s = record s { str1 = t; str2 = last_token u us }

-- `strcpy` into a field of `size` bytes: beyond it the source writes outside the field.
unfoldable pub fits_field : ℕ → Text → Bool
fits_field size t = ltb (length t) size

-- The rest of the request, after the message has been taken apart: the record is written to the slot
-- of this client, its lock is given back, and `mylock[last]` is cleared.
unfoldable pub store_post : ℕ → Server → Option Server
store_post conn s = do
  guard (fits_field from_len s.str1)
  guard (fits_field content_len s.str2)
  slot ← s.slot_of conn
  l ← s.last
  let written = record s {
    posts = update s.posts slot (record { from = s.str1; content = s.str2 });
  }
  let released = unlock_slot slot written
  some (record released { mylock = update released.mylock l false })
