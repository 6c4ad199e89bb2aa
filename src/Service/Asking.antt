-- ===== src/Service/Asking.antt =====
-- The command "exchange a b" in messages (HierarchicalServiceManagementSystem/service.c): each carries
-- the number of targets that were found so far, and so does each reply; the secrets go as decimal
-- texts.
use system_design.Base.{
  not, ◌||◌, ℕ, ◌+◌, Bool, true, false, List, [], ◌∷◌, ◌++◌, Option, none, some, if◌then◌else◌,
  ◌==◌, ◌>>=◌, get_elem?, Text, codes, text_eq,
}
use system_design.Service.Decimal.{int_to_str, atoi}
use system_design.Service.Words.{concat, space, arguments}
use system_design.Service.Protocol.{Printed, heard, hand_over}
use system_design.Service.Exchange.{
  Services, end, child, Partner, next_gnum, is_target, target, swap, acquire,
}

abbrev pub exchange_word : Text
exchange_word = codes "exchange"

-- The messages are put together anew: `w4` and `q5`, without and with the blank for the number.
abbrev pub exchange_text : Text → Text → Text → Text
exchange_text command a b = concat (concat (concat (concat command space) a) space) b

abbrev pub numbered : Text → ℕ → Text
numbered text g = concat (concat text space) (int_to_str g)

-- After a loop: the number, the targets that were found, what was printed, and whether the first
-- target waits for the files.
pub record Seen : Type 0 where
  pub gnum : ℕ
  pub targets : List Partner
  pub log : List Printed
  pub waits : Bool

-- Service `n` with its secret, on the message `m`: what has been seen with its reply. `below` is the
-- loop over its children with the text of the command: a target takes a 2 only and sends the same
-- number to each child, the others pass on what they were told.
unfoldable pub serve_exchange : (Bool → Text → ℕ → Option Seen) → Text → ℕ → Text → Option Seen
serve_exchange below n secret m = do
  ws ← arguments m
  command ← get_elem? ws 0
  a ← get_elem? ws 1
  b ← get_elem? ws 2
  number ← get_elem? ws 3
  g ← atoi number
  let text = exchange_text command a b
  let print = heard n text
  let self = target a b n secret
  if text_eq command exchange_word
      then (if is_target a b n
          then (if g + 1 == 2
              then some (record { gnum = 2; targets = self ∷ []; log = print ∷ []; waits = false })
              else (do
                asked ← below true text (g + 1)
                some (record {
                  gnum = asked.gnum;
                  targets = self ∷ asked.targets;
                  log = print ∷ asked.log;
                  waits = not (asked.gnum == 2);
                })))
          else (do
            passed ← below false text g
            some (record {
              gnum = passed.gnum;
              targets = passed.targets;
              log = print ∷ passed.log;
              waits = passed.waits;
            })))
      else none

-- The loop over the children.
unfoldable pub ask_exchange : Bool → Text → ℕ → Services → Option Seen
ask_exchange fixed text g end = some (record { gnum = g; targets = []; log = []; waits = false })
ask_exchange fixed text g (child n s h next) = do
  m ← hand_over (numbered text g)
  seen ← serve_exchange (λ f t g'. ask_exchange f t g' h) n s m
  reply ← hand_over (int_to_str seen.gnum)
  k ← atoi reply
  let g' = next_gnum fixed g k
  if g' == 2
      then some (record { gnum = 2; targets = seen.targets; log = seen.log; waits = seen.waits })
      else (do
        rest ← ask_exchange fixed text g' next
        some (record {
          gnum = rest.gnum;
          targets = seen.targets ++ rest.targets;
          log = seen.log ++ rest.log;
          waits = seen.waits || rest.waits;
        }))

-- A secret over a named pipe: `intTostr`, the bytes with the NUL, `atoi`.
unfoldable pub pass_secret : ℕ → Option ℕ
pass_secret s = do t ← hand_over (int_to_str s); atoi t

unfoldable pub pass_secrets : List ℕ → Option (List ℕ)
pass_secrets [] = some []
pass_secrets (s ∷ ss) = do s' ← pass_secret s; ss' ← pass_secrets ss; some (s' ∷ ss')

-- The manager and its list, afterwards, and what was printed.
pub record Traded : Type 0 where
  pub all : Services
  pub log : List Printed

-- The manager, on the array of words of the command: it may be a target itself; it asks its children.
module _ (manager : Text) (secret : ℕ) (message : Text) (h : Services) (ws : List Text) where
  unfoldable pub manage_exchange : Option Traded
  manage_exchange = do
    command ← get_elem? ws 0
    a ← get_elem? ws 1
    b ← get_elem? ws 2
    let self = target a b manager secret
    let hit = is_target a b manager
    seen ← ask_exchange false (exchange_text command a b) (if hit then 1 else 0) h
    let targets = if hit then self ∷ seen.targets else seen.targets
    let waits = if hit then false else seen.waits
    news ← swap a b waits targets
    read ← pass_secrets news
    some (record {
      all = (acquire a b read (child manager secret h end)).0;
      log = heard manager message ∷ seen.log;
    })

-- One round of the manager's loop on a line with this command; the others are in `Manager`.
unfoldable pub obey_exchange : Text → ℕ → Text → Services → Option Traded
obey_exchange manager secret message h = do
  ws ← arguments message
  command ← get_elem? ws 0
  if text_eq command exchange_word then manage_exchange manager secret message h ws else none
