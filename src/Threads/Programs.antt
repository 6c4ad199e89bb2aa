-- ===== src/Threads/Programs.antt =====
-- The computing threads of UserLevelThreadLibrary/threads.c. All that they keep is in the thread
-- control block, so a switch to other threads at `thread_yield` does not change what they compute.
use system_design.Base.{
  ℕ, zero, suc, ◌+◌, ◌*◌, ◌^◌, Option, none, some, List, [], ◌∷◌, if◌then◌else◌, ltb, ◌==ℤ◌, ℤ, pos,
  ◌>>=◌, ◌>>◌, guard,
}

-- `struct tcb`, less its `environment`.
pub record Tcb : Type 0 where
  pub id : ℕ
  pub arg : ℤ
  pub i : ℕ
  pub i2 : ℕ
  pub x : ℕ
  pub y : ℕ
  pub z : ℕ

-- `thread_setup`
unfoldable pub thread_setup : ℕ → ℤ → Tcb
thread_setup id arg = record { id = id; arg = arg; i = 1; i2 = 1; x = 1; y = 1; z = 1 }

-- A result of arithmetic on `int`; beyond it C leaves the behaviour undefined.
unfoldable pub int_result : ℕ → Option ℕ
int_result v = do guard (ltb v (2 ^ 31)); some v

-- One iteration of the loop of `fibonacci`, up to the line that it prints.
unfoldable pub fibonacci_iteration : Tcb → Option Tcb
fibonacci_iteration t =
    if ltb 2 t.i
    then (do sum ← int_result (t.x + t.y); some (record t { x = t.y; y = sum }))
    else some (record t { x = 1; y = 1 })

-- The numbers that `fibonacci` prints, in at most `n` iterations; `none` if it has not come to
-- `thread_exit` by then.
unfoldable pub fibonacci : ℕ → Tcb → Option (List ℕ)
fibonacci zero t = none
fibonacci (suc n) t = do
  t' ← fibonacci_iteration t
  if pos t'.i ==ℤ t'.arg
      then some (t'.y ∷ [])
      else (do rest ← fibonacci n (record t' { i = t'.i + 1 }); some (t'.y ∷ rest))

-- One iteration of the loop of `factorial`, up to the line that it prints.
unfoldable pub factorial_iteration : Tcb → Option Tcb
factorial_iteration t = do z ← int_result (t.z * t.i2); some (record t { z = z })

-- The same for `factorial`, whose block starts with `z = 1`.
unfoldable pub factorial_loop : ℕ → Tcb → Option (List ℕ)
factorial_loop zero t = none
factorial_loop (suc n) t = do
  t' ← factorial_iteration t
  if pos t'.i2 ==ℤ t'.arg
      then some (t'.z ∷ [])
      else (do rest ← factorial_loop n (record t' { i2 = t'.i2 + 1 }); some (t'.z ∷ rest))

unfoldable pub factorial : ℕ → Tcb → Option (List ℕ)
factorial n t = factorial_loop n (record t { z = 1; i2 = 1 })
