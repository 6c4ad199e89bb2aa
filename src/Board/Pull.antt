-- ===== src/Board/Pull.antt =====
-- The request "pull" and the greeting of a new client: the posts that nobody is writing.
use system_design.Base.{ℕ, zero, suc, ◌+◌, Bool, true, false, not, [], ◌∷◌, ◌++◌, if◌then◌else◌}
use system_design.Board.State.{Text, codes, record_num, Post, Server, lock_slot, unlock_slot}

abbrev pub newline : Text
newline = 10 ∷ []

abbrev pub rule : Text
rule = codes "==============================" ++ newline

-- `strlen(re.Content) != 0`
abbrev pub is_written : Post → Bool
is_written p = elim p.content [ [] ↦ false | _ ∷ _ ↦ true ]

unfoldable pub render : Post → Text
render p =
    codes "From: " ++ p.from ++ newline ++ codes "Content:" ++ newline ++ p.content ++ newline

-- The variables of the loop.
pub record View : Type 0 where
  pub server : Server
  pub lockcount : ℕ
  pub temp : Text

-- The body of the loop, for slot `k`; `temp` is a text without a bound, Board.Capacity is about its
-- 2000 bytes.
unfoldable pub show : (ℕ → Bool) → ℕ → View → View
show others k v =
    if others k
    then record v { lockcount = v.lockcount + 1 }
    else if not (v.server.mylock k)
    then record v {
      server = unlock_slot k (lock_slot k v.server);
      temp =
          (if is_written (v.server.posts k) then v.temp ++ render (v.server.posts k) else v.temp);
    }
    else record v { server = lock_slot k v.server; lockcount = v.lockcount + 1 }

-- `n` rounds from slot `k`.
unfoldable pub show_slots : (ℕ → Bool) → ℕ → ℕ → View → View
show_slots others zero k v = v
show_slots others (suc n) k v = show_slots others n (k + 1) (show others k v)

-- The loop and the closing line, after an opening text.
unfoldable pub list_posts : (ℕ → Bool) → Text → Server → View
list_posts others opening s =
    let v = show_slots others record_num 0 (record { server = s; lockcount = 0; temp = opening }) in
    record v { temp = v.temp ++ rule }

-- "pull": the text sent, and the number of locked posts that the server warns of on its own screen.
unfoldable pub pull : (ℕ → Bool) → Server → View
pull others s = list_posts others rule s

-- A new connection.
unfoldable pub greet : (ℕ → Bool) → Server → View
greet others s =
    list_posts others (rule ++ codes "Welcome to CSIE Bulletin board" ++ newline ++ rule) s
