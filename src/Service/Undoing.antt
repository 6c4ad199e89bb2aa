-- ===== src/Service/Undoing.antt =====
-- A and the kill after it, from the bytes of the input on
-- (HierarchicalServiceManagementSystem/service.c).
use system_design.Base.{
  ◌+◌, ◌<◌, ◌≡◌, ◌⊎◌, refl, ◌∙◌, true, false, List, [], ◌∷◌, ◌++◌, map, some, Text, text_eq, length,
  arith,
}
use system_design.Service.State.{Children, size}
use system_design.Service.Names.{names, Free, find}
use system_design.Service.Kill.{kill}
use system_design.Service.Commands.{kill_undoes_spawn}
use system_design.Service.Decimal.{int_limit}
use system_design.Service.Protocol.{Printed, manager_name}
use system_design.Service.Spawning.{printed}
use system_design.Service.Manager.{and_then, run_manager}
use system_design.Service.Session.{
  Command, spawn_command, kill_command, typed, input, IsName, carry_out, carry_out_all,
  run_manager-input,
}

-- The two lines "spawn p c" and "kill c" of the input, with `p` the manager or a service, and a name `c`
-- of no process, neither the manager's nor "Manager": the manager comes through both, and afterwards the
-- tree of processes is as it was. The names are words that fit the buffers, and an `int` can count the
-- processes.
pub input_undone :
    (manager p c rest : Text) (h : Children)
    → IsName p × IsName c
    → (length p < 100) × (length c < 16)
    → (text_eq c manager ≡ false) × (text_eq c manager_name ≡ false)
    → (text_eq p manager ≡ true) ⊎ ((sub : Children) × (find p h ≡ some sub))
    → Free c (names h)
    → size h + 2 < int_limit
    → (log : List Printed) × (run_manager 2 manager
          (input (spawn_command p c ∷ kill_command c ∷ []) ++ rest)
          h
        ≡ some (record { head = some h; log = log }))
unfolding carry_out_all carry_out and_then
input_undone manager p c rest h (fp, fc) (lp, lc) (other, apart) target free lt =
    let (k, log, spawned, undone) = kill_undoes_spawn manager p c h other target free in
    let commands : List Command = spawn_command p c ∷ kill_command c ∷ [] in
    let read =
      run_manager-input manager commands rest h ((fp, fc, lp, lc, apart), ((fc, omega arith), tt))
        (omega arith) in
    (
      map (printed (typed (spawn_command p c))) log
          ++ (map (printed (typed (kill_command c))) (kill manager c k).1 ++ []),
      read ∙ rw (spawned, undone) refl,
    )
