-- ===== src/Board/Connections.antt =====
-- The connections of the bulletin board server (csieBulletinBoard/server.c: the loop of `main` over
-- `select`, `init_server`, `init_request`, `free_request`, `receiveM`, `sendM`). What the server prints
-- on its own screen is left out.
use system_design.Base.{
  ℕ, zero, suc, ◌+◌, Bool, true, false, ◌&&◌, ◌||◌, not, List, [], ◌∷◌, ◌++◌, Option, none, some,
  if◌then◌else◌, ◌==◌, ◌>>=◌, update,
}
use system_design.Board.State.{Text, Server}
use system_design.Board.Pull.{greet}
use system_design.Board.Command.{Reply, silent, closed, sent, handle}

-- MAX_MESSAGE_LEN
abbrev pub max_message_len : ℕ
max_message_len = 2000

-- The table `requestP` with `none` for a `conn_fd` of -1, the set `master`, and what the requests work
-- on.
pub record Host : Type 0 where
  pub server : Server
  pub conn_fd : ℕ → Option ℕ
  pub master : ℕ → Bool

-- `accept`: a new connection, an error after which the loop goes on, or another one, which ends the
-- server.
pub data Accepted : Type 0 where
  try_again failed : Accepted
  connected : ℕ → Accepted

-- What a round meets: the descriptors with input, of which `select` leaves those in `master`; the
-- answer of `accept`; the bytes that `recvfrom` reads; and the slots that other processes have locked.
pub record Arrival : Type 0 where
  pub ready : ℕ → Bool
  pub accepted : Accepted
  pub message : ℕ → Text
  pub others : ℕ → Bool

pub data Output : Type 0 where
  sends : ℕ → Text → Output
  closes : ℕ → Output

-- `receiveM` and `strcpy`: the bytes up to the first NUL, of `n` that were cleared before; without
-- one the source reads behind the buffer: `none`.
unfoldable pub receive_m : ℕ → Text → Option Text
receive_m zero bytes = none
receive_m (suc n) [] = some []
receive_m (suc n) (c ∷ bytes) =
    let rest = receive_m n bytes in if c == 0 then some [] else (do text ← rest; some (c ∷ text))

-- `strncpy(response, msg, n)`
unfoldable pub first_bytes : ℕ → Text → Text
first_bytes zero msg = []
first_bytes (suc n) [] = []
first_bytes (suc n) (c ∷ msg) = c ∷ first_bytes n msg

-- `sendM`
unfoldable pub send_m : Text → Text
send_m msg = first_bytes 1999 msg

-- `init_server`: only the listening socket is open.
unfoldable pub init_server : ℕ → Server → Host
init_server listen s = record {
  server = s;
  conn_fd = update (λ _. none) listen (some listen);
  master = update (λ _. false) listen true;
}

-- A new connection.
unfoldable pub welcome : (ℕ → Bool) → ℕ → Host → Host × List Output
welcome others fd h =
    let v = greet others h.server in
    (
      record {
        server = v.server;
        conn_fd = update h.conn_fd fd (some fd);
        master = update h.master fd true;
      },
      sends fd (send_m v.temp) ∷ [],
    )

unfoldable pub accept_new : (ℕ → Bool) → Host → Accepted → Option (Host × List Output)
accept_new others h try_again = some (h, [])
accept_new others h failed = none
accept_new others h (connected fd) = some (welcome others fd h)

-- The reply, for entry `i` of the table: at "exit" `FD_CLR`, `close` and `free_request`.
unfoldable pub respond : ℕ → ℕ → Server → Reply → Host → Host × List Output
respond i fd s silent h = (record h { server = s }, [])
respond i fd s (sent text) h = (record h { server = s }, sends fd (send_m text) ∷ [])
respond i fd s closed h = (
  record { server = s; conn_fd = update h.conn_fd i none; master = update h.master fd false },
  closes fd ∷ [],
)

unfoldable pub serve_entry : Arrival → ℕ → ℕ → Host → Option (Host × List Output)
serve_entry a i fd h = do
  command ← receive_m max_message_len (a.message fd)
  (s, reply) ← handle a.others fd command h.server
  some (respond i fd s reply h)

-- `select` finds one of the first `n` descriptors.
unfoldable pub any_of : (ℕ → Bool) → ℕ → Bool
any_of read_fds zero = false
any_of read_fds (suc n) = read_fds n || any_of read_fds n

-- The listening descriptor, the size of the table, and `FD_ISSET(-1, &read_fds)`, which no document
-- defines. Where it is true, `recvfrom(-1)` fails and the server ends: `none`.
module _ (listen maxfd : ℕ) (negative : (ℕ → Bool) → Bool) where
  unfoldable pub check_fd : Arrival → (ℕ → Bool) → ℕ → Host → Option ℕ → Option (Host × List Output)
  check_fd a read_fds i h none = if negative read_fds then none else some (h, [])
  check_fd a read_fds i h (some fd) =
      if not (fd == listen) && read_fds fd then serve_entry a i fd h else some (h, [])

  abbrev pub check_entry : Arrival → (ℕ → Bool) → ℕ → Host → Option (Host × List Output)
  check_entry a read_fds i h = check_fd a read_fds i h (h.conn_fd i)

  -- The loop over the table: `n` entries from `i` on.
  unfoldable pub check_entries : Arrival → (ℕ → Bool) → ℕ → ℕ → Host → Option (Host × List Output)
  check_entries a read_fds zero i h = some (h, [])
  check_entries a read_fds (suc n) i h = do
    (h₁, out₁) ← check_entry a read_fds i h
    (h₂, out₂) ← check_entries a read_fds n (i + 1) h₁
    some (h₂, out₁ ++ out₂)

  -- One round of `while(1)`.
  unfoldable pub serve_round : Arrival → Host → Option (Host × List Output)
  serve_round a h =
      let read_fds = λ (j : ℕ). h.master j && a.ready j in
      if any_of read_fds (maxfd + 1)
      then (if read_fds listen
          then accept_new a.others h a.accepted
          else check_entries a read_fds maxfd 0 h)
      else some (h, [])

  unfoldable pub serve_rounds : List Arrival → Host → Option (Host × List Output)
  serve_rounds [] h = some (h, [])
  serve_rounds (a ∷ later) h = do
    (h₁, out₁) ← serve_round a h
    (h₂, out₂) ← serve_rounds later h₁
    some (h₂, out₁ ++ out₂)
