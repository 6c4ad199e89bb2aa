-- ===== src/Board/RoundTests.antt =====
-- The server's rounds on concrete arrivals.
use system_design.Board.Connections.{sends}
use system_design.Board.Message.{submission}
use system_design.Board.Post.{wrap_last}
use system_design.Board.Posting.{rounds_post}
use system_design.Base.{
  ℕ, Bool, ◌⊎◌, update, if◌then◌else◌, ◌≡◌, ◌≢◌, ◌<◌, refl, true, false, ◌==◌, List, [], ◌∷◌, none,
  some, arith, All, length,
}
use system_design.Board.State.{codes, Server}
use system_design.Board.Pull.{pull, greet}
use system_design.Board.Sessions.{IsValid, start-IsValid}
use system_design.Board.Capacity.{Tidy, listings_fit}
use system_design.Board.Connections.{
  Host, try_again, connected, Arrival, Output, closes, send_m, init_server, serve_round,
  serve_rounds,
}
use system_design.Board.Serving.{IsSound, After, receiver}
use system_design.Board.Visits.{callers, serve_all}
use system_design.Board.Rounds.{read_set, round_serves}
use system_design.Board.Exits.{rounds-IsSound, exit_then_nothing}
use system_design.Board.Visits.{Disturbed}

abbrev empty_board : Server
empty_board = record {
  last = none;
  mylock = λ _. false;
  slot_of = λ _. none;
  held = λ _. false;
  posts = λ _. record { from = []; content = [] };
  str1 = [];
  str2 = [];
}

empty_board-IsValid : IsValid empty_board
empty_board-IsValid = start-IsValid empty_board refl (λ _. refl)

empty_board-Tidy : Tidy empty_board
empty_board-Tidy k = (omega arith, omega arith)

-- An FD_ISSET that looks at bit 63 of the set for the descriptor -1.
abbrev set_63 : (ℕ → Bool) → Bool
set_63 read_fds = read_fds 63

-- The server listens on descriptor 3. Client 4 connects, asks for a slot, and leaves.
abbrev calls : Arrival
calls = record {
  ready = λ i. 3 == i;
  accepted = connected 4;
  message = λ _. [];
  others = λ _. false;
}

abbrev asks : Arrival
asks = record {
  ready = λ i. 4 == i;
  accepted = try_again;
  message = λ _. codes "post";
  others = λ _. false;
}

abbrev leaves : Arrival
leaves = record {
  ready = λ i. 4 == i;
  accepted = try_again;
  message = λ _. codes "exit";
  others = λ _. false;
}

-- The host with client 4.
abbrev with_client : Host
with_client = record {
  server = empty_board;
  conn_fd = λ i. if 3 == i then some 3 else if 4 == i then some 4 else none;
  master = λ i. if 3 == i then true else 4 == i;
}

with_client-IsSound : IsSound with_client
with_client-IsSound = record {
  own = λ i fd e. ground (arith, e);
  watched = λ i e. ground (arith, e);
  in_use = λ i e. ground (arith, e);
  valid = empty_board-IsValid;
  tidy = empty_board-Tidy;
}

round_serves_example :
    Disturbed set_63 (read_set asks with_client) (serve_round 3 16 set_63 asks with_client)
    ⊎ (serve_round 3 16 set_63 asks with_client
        ≡ serve_all asks (callers 3 (read_set asks with_client) 16 0) with_client)
round_serves_example = round_serves 3 16 set_63 asks with_client with_client-IsSound refl

rounds-IsSound_example :
    After
      (λ k out. IsSound k)
      (serve_rounds 3 16 set_63 (calls ∷ asks ∷ leaves ∷ []) (init_server 3 empty_board))
rounds-IsSound_example =
    rounds-IsSound 3 16 set_63 (calls ∷ asks ∷ leaves ∷ []) empty_board empty_board-IsValid
      empty_board-Tidy

exit_then_nothing_example :
    After
      (λ k out.
        (k.master 4 ≡ false)
        × (rest : List Output) × (out ≡ closes 4 ∷ rest)
        × All (λ o. receiver o ≢ 4) rest)
      (serve_rounds 3 16 set_63 (leaves ∷ asks ∷ []) with_client)
exit_then_nothing_example =
    exit_then_nothing 3 16 set_63 4 leaves (asks ∷ []) with_client with_client-IsSound refl
      (omega arith) refl (λ j. refl) refl ((λ e. absurd cc), tt)

listings_fit_example :
    (length (pull (λ _. false) empty_board).temp < 2000)
    × (length (greet (λ _. false) empty_board).temp < 2000)
    × (send_m (pull (λ _. false) empty_board).temp ≡ (pull (λ _. false) empty_board).temp)
    × (send_m (greet (λ _. false) empty_board).temp ≡ (greet (λ _. false) empty_board).temp)
listings_fit_example = listings_fit (λ _. false) empty_board empty_board-Tidy

abbrev submits : Arrival
submits = record {
  ready = λ i. 4 == i;
  accepted = try_again;
  message = λ _. submission (codes "Ann") (codes "hello");
  others = λ _. false;
}

rounds_post_example :
    Disturbed set_63
      (read_set asks with_client)
      (serve_rounds 3 16 set_63 (asks ∷ submits ∷ []) with_client)
    ⊎ Disturbed set_63
        (read_set submits with_client)
        (serve_rounds 3 16 set_63 (asks ∷ submits ∷ []) with_client)
    ⊎ ((k : Host) × (serve_rounds 3 16 set_63 (asks ∷ submits ∷ []) with_client
          ≡ some (k, sends 4 (codes "1") ∷ []))
        × (k.server.posts
            ≡ update empty_board.posts 0 (record { from = codes "Ann"; content = codes "hello" }))
        × ((j : ℕ) → k.server.mylock j ≡ false)
        × (k.conn_fd ≡ with_client.conn_fd))
unfolding wrap_last
rounds_post_example =
    rounds_post 3 16 set_63 4 0 b'A' (codes "nn") b'h' (codes "ello") asks submits with_client
      with_client-IsSound refl (omega arith) refl (λ j. refl) (λ j. refl) refl refl refl
      (omega arith, omega arith) (omega arith, omega arith) (omega arith, omega arith)
      (omega arith, omega arith)
