-- ===== src/Board/FileLocks.antt =====
-- The locks on the file that a post leaves (csieBulletinBoard/server.c).
use system_design.Base.{
  ℕ, zero, suc, ◌+◌, ◌-◌, ◌<◌, ◌≤◌, ◌≡◌, Bool, Bool-cases, true, false, not, ◌&&◌, if◌then◌else◌,
  ◌==◌, arith, ltb, inl, inr,
}
use system_design.Board.State.{record_num, Server, next_index}
use system_design.Board.Post.{Scan, probe, probe_slots, wrap_last, scan_slots, post}
use system_design.Board.Slots.{wrap_last-lt}

probe-held :
    (others : ℕ → Bool) (conn m : ℕ) (sc : Scan) (j : ℕ)
    → (probe others conn m sc).server.held j
      ≡ (if m == j && not (others j) then true else sc.server.held j)
unfolding probe
probe-held others conn m sc j = elim (Bool-cases (m == j)) [
  | inl same ↦ let e : m ≡ j = ground arith in rw e (ground arith)
  | inr other ↦ rw other (ground arith)
]

probe_slots-held :
    (others : ℕ → Bool) (conn n m : ℕ) (sc : Scan) (j : ℕ)
    → (probe_slots others conn n m sc).server.held j
      ≡ (if not (ltb j m) && ltb j (m + n) && not (others j) then true else sc.server.held j)
unfolding probe_slots
probe_slots-held others conn zero m sc j = ground arith
probe_slots-held others conn (suc n) m sc j = ground (
  arith,
  probe_slots-held others conn n (m + 1) (probe others conn m sc) j,
  probe-held others conn m sc j,
)

-- A post locks in the file every slot that no other process has locked, not only the one that it
-- gives to its client: all other servers then find the whole board locked.
pub post_locks_all :
    (others : ℕ → Bool) (conn : ℕ) (s : Server) (k : ℕ)
    → next_index s.last ≤ record_num
    → k < record_num
    → others k ≡ false
    → (post others conn s).0.held k ≡ true
unfolding post scan_slots
post_locks_all others conn s k h lt free =
    let w = wrap_last s in
    let start : Scan = record { server = w; unlkc = record_num; interlk = 0 } in
    let i = next_index w.last in
    let small = wrap_last-lt s h in
    let first : Scan = probe_slots others conn (record_num - i) i start in
    ground (
      arith,
      small,
      probe_slots-held others conn (record_num - i) i start k,
      probe_slots-held others conn i 0 first k,
    )
