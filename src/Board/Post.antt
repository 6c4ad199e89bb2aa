-- ===== src/Board/Post.antt =====
-- The request "post" of csieBulletinBoard/server.c: the client asks for a slot to write to.
use system_design.Base.{
  ℕ, zero, suc, ◌+◌, ◌-◌, Bool, true, not, none, some, if◌then◌else◌, ltb, ◌==◌, update,
}
use system_design.Board.State.{Text, codes, record_num, Server, lock_slot, next_index}

-- The variables of the two loops.
pub record Scan : Type 0 where
  pub server : Server
  pub unlkc : ℕ
  pub interlk : ℕ

-- `last = m; LAST[conn_fd] = last; mylock[last] = 1`
abbrev pub take_slot : ℕ → ℕ → Server → Server
take_slot conn m s = record s {
  last = some m;
  slot_of = update s.slot_of conn (some m);
  mylock = update s.mylock m true;
}

-- The body of both loops, for slot `m`.
unfoldable pub probe : (ℕ → Bool) → ℕ → ℕ → Scan → Scan
probe others conn m sc =
    if others m
    then record sc { unlkc = sc.unlkc - 1 }
    else if not (sc.server.mylock m)
    then (if sc.interlk == 0
        then record sc {
          server = take_slot conn m (lock_slot m sc.server);
          interlk = sc.interlk + 1;
        }
        else record sc { server = lock_slot m sc.server })
    else record sc { server = lock_slot m sc.server; unlkc = sc.unlkc - 1 }

-- `n` rounds from slot `m`.
unfoldable pub probe_slots : (ℕ → Bool) → ℕ → ℕ → ℕ → Scan → Scan
probe_slots others conn zero m sc = sc
probe_slots others conn (suc n) m sc = probe_slots others conn n (m + 1) (probe others conn m sc)

-- `if ((last + 1) == RECORD_NUM) last = -1`
unfoldable pub wrap_last : Server → Server
wrap_last s = if next_index s.last == record_num then record s { last = none } else s

-- The slots behind `oldlast`, then those up to it.
unfoldable pub scan_slots : (ℕ → Bool) → ℕ → Server → Scan
scan_slots others conn s =
    let k = next_index s.last in
    let first =
      probe_slots others conn (record_num - k) k
        (record { server = s; unlkc = record_num; interlk = 0 }) in
    if ltb 0 k then probe_slots others conn k 0 first else first

-- The whole request, with the reply.
unfoldable pub post : (ℕ → Bool) → ℕ → Server → Server × Text
unfolding wrap_last scan_slots
post others conn s =
    let sc = scan_slots others conn (wrap_last s) in
    (sc.server, (if sc.unlkc == 0 then codes "0" else codes "1"))
