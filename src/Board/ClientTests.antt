-- ===== src/Board/ClientTests.antt =====
-- The dialogue of a client on concrete words.
use system_design.Base.{
  ℕ, ◌≡◌, refl, [], ◌∷◌, some, update, arith, Bool, true, false, ◌==◌, ◌++◌, none,
}
use system_design.Board.State.{codes, Server}
use system_design.Board.Post.{wrap_last}
use system_design.Board.Command.{handle}
use system_design.Board.Client.{for_command, Dialogue, prompt, type_words}
use system_design.Board.Dialogue.{client_posts, client_refused}

-- Slot 9 was given last; client 5 types.
abbrev board : Server
board = record {
  last = some 9;
  mylock = update (λ _. false) 0 true;
  slot_of = λ _. none;
  held = λ _. false;
  posts = λ _. record { from = []; content = [] };
  str1 = [];
  str2 = [];
}

-- Another process works on slot 1.
abbrev others : ℕ → Bool
others k = k == 1

client_posts_example :
    (d : Dialogue) × (type_words
        (handle others 5)
        (codes "post" ∷ codes "bob" ∷ codes "hi" ∷ [])
        (record { asks = for_command; server = board; shown = [] })
      ≡ some d)
    × (d.asks ≡ for_command)
    × (d.server.posts ≡ update board.posts 2 (record { from = codes "bob"; content = codes "hi" }))
    × ((k : ℕ) → d.server.mylock k ≡ board.mylock k)
unfolding wrap_last
client_posts_example =
    client_posts others 5 board [] (omega arith) 2 98 (codes "ob") 104 (codes "i") refl
      (omega arith) (omega arith)
      ((λ e. omega arith), ((λ e. omega arith), ((λ e. omega arith), tt)))
      ((λ e. omega arith), ((λ e. omega arith), tt))
      ((λ e. omega arith), ((λ e. omega arith), ((λ e. omega arith), tt)))
      ((λ e. omega arith), ((λ e. omega arith), tt))

client_refused_example :
    (d : Dialogue) × (type_words
        (handle (λ _. true) 5)
        (codes "post" ∷ [])
        (record { asks = for_command; server = board; shown = [] })
      ≡ some d)
    × (d.asks ≡ for_command)
    × (d.shown ≡ [] ++ (codes "[Error] Maximum posting limit exceeded\n" ++ prompt))
    × (d.server.posts ≡ board.posts)
client_refused_example = client_refused (λ _. true) 5 board [] (omega arith) refl
