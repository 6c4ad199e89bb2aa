-- ===== src/Board/State.antt =====
-- The data of the bulletin board server (csieBulletinBoard/server.c, hw1.h). Texts are their bytes,
-- without the closing NUL.
pub use system_design.Base.{Text, codes, upto}
use system_design.Base.{ℕ, ◌+◌, Bool, true, false, Option, none, some, update}

-- RECORD_NUM, FROM_LEN, CONTENT_LEN
abbrev pub record_num : ℕ
record_num = 10

abbrev pub from_len : ℕ
from_len = 5

abbrev pub content_len : ℕ
content_len = 20

-- `record`, a slot of the file.
pub record Post : Type 0 where
  pub from : Text
  pub content : Text

-- The variables of `main` that outlive a request, and the file with its locks. `last` is `none` for
-- -1; a slot of `slot_of` (LAST) that no post has set is `none`; `held` are the slots on which this
-- process holds a lock of `fcntl`; `str1` and `str2` keep what the last submission left in them.
pub record Server : Type 0 where
  pub last : Option ℕ
  pub mylock : ℕ → Bool
  pub slot_of : ℕ → Option ℕ
  pub held : ℕ → Bool
  pub posts : ℕ → Post
  pub str1 : Text
  pub str2 : Text

-- `fcntl(file_fd, F_SETLK, &tplk)` with F_WRLCK on slot `k` fails when another process holds a lock
-- there (`others`), and otherwise gives this process the lock; with F_UNLCK it gives it back.
abbrev pub lock_slot : ℕ → Server → Server
lock_slot k s = record s { held = update s.held k true }

abbrev pub unlock_slot : ℕ → Server → Server
unlock_slot k s = record s { held = update s.held k false }

-- `last + 1`
abbrev pub next_index : Option ℕ → ℕ
next_index none = 0
next_index (some n) = n + 1
