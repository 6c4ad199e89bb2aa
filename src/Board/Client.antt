-- ===== src/Board/Client.antt =====
-- The dialogue of a client with its user and with the server (csieBulletinBoard/client.c, `main`).
use system_design.Base.{
  ℕ, ◌++◌, List, [], ◌∷◌, Option, none, some, if◌then◌else◌, ltb, length, ◌>>=◌, ◌>>◌, guard,
  text_eq,
}
use system_design.Board.State.{Text, codes, Server}
use system_design.Board.Command.{Reply, silent, closed, sent}
use system_design.Board.Message.{submission}

-- MAX_MESSAGE_LENGTH
abbrev pub max_message_length : ℕ
max_message_length = 2000

-- What the next word that the user types is taken for.
pub data Asks : Type 0 where
  for_command for_from finished : Asks
  for_content : Text → Asks

-- The server with this connection, and what the client has printed.
pub record Dialogue : Type 0 where
  pub asks : Asks
  pub server : Server
  pub shown : Text

abbrev pub prompt : Text
prompt = codes "Please enter your command (post/pull/exit): "

-- `receiveM`: on a closed connection the message is empty, and from a silent server none comes.
abbrev pub receive : Reply → Option Text
receive (sent message) = some message
receive closed = some []
receive silent = none

abbrev pub show_next : Asks → Text → Server → Dialogue → Dialogue
show_next asks text s d = record { asks = asks; server = s; shown = d.shown ++ text }

module _ (serve : Text → Server → Option (Server × Reply)) where
  -- One word of `scanf`. Beyond a buffer of the client it is `none`, and so is waiting for ever.
  unfoldable pub type_word : Text → Asks → Dialogue → Option Dialogue
  type_word word for_command d = do
    guard (ltb (length word) 5)
    r ← serve word d.server
    if text_eq word (codes "post")
        then (do
          message ← receive r.1
          some (
              if text_eq message (codes "0")
              then show_next for_command
                  (codes "[Error] Maximum posting limit exceeded\n" ++ prompt) r.0 d
              else show_next for_from (codes "FROM: ") r.0 d))
        else if text_eq word (codes "pull")
        then (do message ← receive r.1; some (show_next for_command (message ++ prompt) r.0 d))
        else some (show_next finished [] r.0 d)
  type_word word for_from d = do
    guard (ltb (length word) max_message_length)
    some (show_next (for_content word) (codes "CONTENT:\n") d.server d)
  type_word word (for_content from) d = do
    guard (ltb (length word) max_message_length)
    guard (ltb (length (submission from word)) max_message_length)
    r ← serve (submission from word) d.server
    some (show_next for_command prompt r.0 d)
  type_word word finished d = some d

  unfoldable pub type_words : List Text → Dialogue → Option Dialogue
  type_words [] d = some d
  type_words (word ∷ words) d = do d' ← type_word word d.asks d; type_words words d'
