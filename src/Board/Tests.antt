-- ===== src/Board/Tests.antt =====
-- The bulletin board server on concrete boards.
use system_design.Base.{
  text_eq, ℕ, ◌<◌, ◌≡◌, refl, Bool, true, false, none, some, [], ◌++◌, arith, update,
}
use system_design.Board.State.{codes, record_num, Server, upto}
use system_design.Board.Post.{probe, probe_slots, wrap_last, scan_slots, post}
use system_design.Board.Pull.{rule, pull}
use system_design.Board.Submit.{store_post}
use system_design.Board.Command.{closed, has_marker, remove_marker, submit, handle}
use system_design.Board.Probing.{count_slots, Same}
use system_design.Board.Listing.{posts_text, locked, pull_lists}
use system_design.Board.Interleaving.{with_texts, interleaved_post_unlocks_other}
use system_design.Board.FileLocks.{post_locks_all}
use system_design.Board.Sessions.{full_board_faults}
use system_design.Board.Message.{submission, submit-submission}

-- Slot 9 was given last, slot 0 is another client's; slot 1 is another process's.
abbrev others : ℕ → Bool
others = update (λ _. false) 1 true

abbrev board : Server
board = record {
  last = some 9;
  mylock = update (λ _. false) 0 true;
  slot_of = λ _. none;
  held = λ _. false;
  posts =
      update (λ _. record { from = []; content = [] }) 4
        (record { from = codes "ann"; content = codes "hello" });
  str1 = [];
  str2 = [];
}

post_reply : (post others 5 board).1 ≡ codes "1"
unfolding post probe probe_slots wrap_last scan_slots
post_reply = refl

post_slot : (post others 5 board).0.slot_of 5 ≡ some 2
unfolding post probe probe_slots wrap_last scan_slots
post_slot = refl

full_reply : (post (λ _. true) 5 board).1 ≡ codes "0"
unfolding post probe probe_slots wrap_last scan_slots
full_reply = refl

exit_closes : handle others 5 (codes "exit") board ≡ some (board, closed)
unfolding handle has_marker text_eq
exit_closes = refl

marker_goes : remove_marker (codes "[SP]bob+hi") ≡ codes "bob+hi"
unfolding remove_marker
marker_goes = refl

-- Of two markers in a row the second stays.
marker_stays : remove_marker (codes "[SP][SP]a") ≡ codes "[SP]a"
unfolding remove_marker
marker_stays = refl

pull_lists_example :
    ((pull others board).temp ≡ rule ++ posts_text others board (upto record_num 0) ++ rule)
    × ((pull others board).lockcount ≡ count_slots (locked others board) (upto record_num 0))
    × Same board (pull others board).server
    × ((k : ℕ)
        → k < record_num
        → others k ≡ false
        → (pull others board).server.held k ≡ board.mylock k)
pull_lists_example = pull_lists others board

interleaved_post_unlocks_other_example :
    (t : Server) × (store_post 5
        (with_texts (codes "bob") (codes "hi") (post others 6 (post others 5 board).0).0)
      ≡ some t)
    × (t.mylock 2 ≡ true)
    × (t.mylock 3 ≡ false)
unfolding post probe probe_slots wrap_last scan_slots
interleaved_post_unlocks_other_example =
    interleaved_post_unlocks_other others 5 2 (codes "bob") (codes "hi") board 6 3 (omega arith)
      (omega arith) (λ e. omega arith) refl refl (omega arith) (omega arith)

post_locks_all_example : (post others 5 board).0.held 7 ≡ true
post_locks_all_example = post_locks_all others 5 board 7 (omega arith) (omega arith) refl

submit-submission_example :
    (has_marker (submission (codes "bob") (codes "hi")) ≡ true)
    × (submit 5 (submission (codes "bob") (codes "hi")) board
        ≡ store_post 5 (record board { str1 = codes "bob"; str2 = codes "hi" }))
submit-submission_example =
    submit-submission 5 b'b' (codes "ob") b'h' (codes "i") board
      ((λ e. omega arith), ((λ e. omega arith), ((λ e. omega arith), tt)))
      ((λ e. omega arith), ((λ e. omega arith), tt))
      ((λ e. omega arith), ((λ e. omega arith), ((λ e. omega arith), tt)))
      ((λ e. omega arith), ((λ e. omega arith), tt))

abbrev fresh : Server
fresh = record board { last = none }

abbrev wrote : Server
wrote = record board { slot_of = λ _. some 4 }

full_board_faults_example :
    ((post (λ _. true) 5 wrote).1 ≡ codes "0")
    × ((post (λ _. true) 5 wrote).0.last ≡ none)
    × (store_post 3 (with_texts (codes "bob") (codes "hi") (post (λ _. true) 5 wrote).0) ≡ none)
    × ((l : ℕ)
        → (t : Server) × (store_post 3
              (record (with_texts (codes "bob") (codes "hi") (post (λ _. true) 5 wrote).0) {
                last = some l;
              })
            ≡ some t))
full_board_faults_example =
    full_board_faults (λ _. true) 5 3 4 (codes "bob") (codes "hi") wrote refl refl refl
      (omega arith) (omega arith)
