-- ===== src/Service/MessageTests.antt =====
-- The message-level commands on concrete input.
use system_design.Service.Undoing.{input_undone}
use system_design.Service.Protocol.{Printed}
use system_design.Service.State.{Children, child}
use system_design.Base.{inr, arith, List, ◌≡◌, refl, [], ◌∷◌, ◌++◌, some, codes, text_eq}
use system_design.Service.State.{end, spawned, killed, started}
use system_design.Service.Spawn.{my_spawn, add_child, first_named}
use system_design.Service.Kill.{delete_node}
use system_design.Service.Pipes.{write_message, read_message, read_bytes}
use system_design.Service.Decimal.{int_to_str, digits, atoi, scan}
use system_design.Service.Words.{words, cut, flush, arguments, line}
use system_design.Service.Relay.{Carries, line-Carries}
use system_design.Service.Protocol.{
  heard, told, hand_over, start_child, start_message, settle_node, serve_message, serve_spawn,
  serve_kill, count_reply, ask,
}
use system_design.Service.Manager.{
  obey, manage_spawn, manage_kill, marked, run_manager, read_line, and_then,
}
use system_design.Service.Session.{
  Command, spawn_command, kill_command, input, carry_out_all, run_manager-input,
}

session :
    run_manager 3 (codes "M") (codes "spawn M A\nspawn A B\nkill A\nx") end
    ≡ some (record {
      head = some end;
      log =
          heard (codes "M") (codes "spawn M A")
          ∷ told (started (codes "A"))
          ∷ told (spawned (codes "M") (codes "A"))
          ∷ heard (codes "M") (codes "spawn A B")
          ∷ heard (codes "A") (codes "spawn A B")
          ∷ told (started (codes "B"))
          ∷ told (spawned (codes "A") (codes "B"))
          ∷ heard (codes "M") (codes "kill A")
          ∷ heard (codes "A") (codes "kill A")
          ∷ told (killed (codes "A") 1)
          ∷ [];
    })
unfolding run_manager read_line and_then obey manage_spawn manage_kill marked ask hand_over
    start_child start_message settle_node serve_message serve_spawn serve_kill count_reply words cut
    flush arguments int_to_str digits atoi scan write_message read_message read_bytes my_spawn
    add_child first_named delete_node text_eq
session = refl

abbrev commands : List Command
commands =
    spawn_command (codes "M") (codes "A")
    ∷ spawn_command (codes "A") (codes "B")
    ∷ kill_command (codes "A")
    ∷ []

run_manager-input_example :
    run_manager 3 (codes "M") (input commands ++ codes "kill M") end
    ≡ carry_out_all (codes "M") commands end
unfolding text_eq
run_manager-input_example =
    run_manager-input (codes "M") commands (codes "kill M") end
      (
        ((refl, refl), (refl, refl), omega arith, omega arith, refl),
        (
          ((refl, refl), (refl, refl), omega arith, omega arith, refl),
          (((refl, refl), omega arith), tt),
        ),
      )
      (omega arith)

line-Carries_example :
    Carries
      (line (codes "kill" ∷ codes "A" ∷ codes "N" ∷ []))
      (codes "kill" ∷ codes "A" ∷ codes "N" ∷ [])
line-Carries_example =
    line-Carries (codes "kill" ∷ codes "A" ∷ codes "N" ∷ []) (refl, (refl, (refl, tt)))
      (omega arith) (omega arith) (omega arith)

abbrev one_service : Children
one_service = child (codes "A") end end

input_undone_example :
    (log : List Printed) × (run_manager 2
        (codes "M")
        (input (spawn_command (codes "A") (codes "B") ∷ kill_command (codes "B") ∷ [])
          ++ codes "kill M")
        one_service
      ≡ some (record { head = some one_service; log = log }))
unfolding text_eq
input_undone_example =
    input_undone (codes "M") (codes "A") (codes "B") (codes "kill M") one_service
      ((refl, refl), (refl, refl)) (omega arith, omega arith) (refl, refl) (inr (end, refl))
      (refl, tt) (omega arith)
