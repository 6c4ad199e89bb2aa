-- ===== src/Service/Exchange.antt =====
-- The command "exchange a b" of HierarchicalServiceManagementSystem/service.c: the first two processes
-- with one of the names, in the order in which the command reaches them, swap their secrets over two
-- named pipes.
use system_design.Base.{
  ℕ, ◌+◌, Bool, true, false, ◌||◌, ◌&&◌, not, List, [], ◌∷◌, ◌++◌, Option, none, some,
  if◌then◌else◌, ◌==◌, ◌>>=◌, Text, text_eq, codes,
}
use system_design.Service.Words.{concat}

-- The list `head` of a process, each child with its name, its secret and its own list.
pub data Services : Type 0 where
  end : Services
  child : Text → ℕ → Services → Services → Services

-- A target: whether it goes by the first of the names, and its secret.
pub record Partner : Type 0 where
  pub by_first : Bool
  pub secret : ℕ

-- The number of targets that a process replies, the targets that were found, who printed the command,
-- and whether the first target, which did not find the second below it, waits for the files.
pub record Search : Type 0 where
  pub gnum : ℕ
  pub targets : List Partner
  pub received : List Text
  pub waits : Bool

-- After a child's reply: a target sends its children the same number again and takes a 2 only, the
-- others pass on what they were told.
abbrev pub next_gnum : Bool → ℕ → ℕ → ℕ
next_gnum fixed g reply = if fixed then (if reply == 2 then 2 else g) else reply

-- The loop goes on to the next child unless both targets are found.
abbrev pub go_on : ℕ → Search → Search → Search
go_on g asked rest =
    if g == 2
    then record {
      gnum = 2;
      targets = asked.targets;
      received = asked.received;
      waits = asked.waits;
    }
    else record {
      gnum = rest.gnum;
      targets = asked.targets ++ rest.targets;
      received = asked.received ++ rest.received;
      waits = asked.waits || rest.waits;
    }

module _ (a b : Text) where
  abbrev pub is_target : Text → Bool
  is_target n = text_eq n a || text_eq n b

  abbrev pub target : Text → ℕ → Partner
  target n s = record { by_first = text_eq n a; secret = s }

  -- A target is asked: the second replies at once, the first asks its own children.
  abbrev pub met : ℕ → Text → ℕ → Search → Search
  met g n s asked =
      if g + 1 == 2
      then record { gnum = 2; targets = target n s ∷ []; received = n ∷ []; waits = false }
      else record {
        gnum = asked.gnum;
        targets = target n s ∷ asked.targets;
        received = n ∷ asked.received;
        waits = not (asked.gnum == 2);
      }

  -- The loop over the children.
  unfoldable pub search : Bool → ℕ → Services → Search
  search fixed g end = record { gnum = g; targets = []; received = []; waits = false }
  search fixed g (child n s h next) =
      let asked = search true (g + 1) h in
      let passed = search false g h in
      let reply : Search = if is_target n then met g n s asked else record {
        gnum = passed.gnum;
        targets = passed.targets;
        received = n ∷ passed.received;
        waits = passed.waits;
      } in
      let g' = next_gnum fixed g reply.gnum in
      let rest = search fixed g' next in go_on g' reply rest

  -- The targets take their new secrets, in the order in which they were found; what is left of these.
  unfoldable pub acquire : List ℕ → Services → Services × List ℕ
  acquire news end = (end, news)
  acquire [] (child n s h next) = (child n s h next, [])
  acquire (x ∷ news) (child n s h next) =
      let taken = acquire news h in
      let passed = acquire (x ∷ news) h in
      if is_target n
      then (let rest = acquire taken.1 next in (child n x taken.0 rest.0, rest.1))
      else (let rest = acquire passed.1 next in (child n s passed.0 rest.0, rest.1))

-- The names of the pipes: `c2` in one direction and `m2` in the other.
abbrev pub fifo : Text → Text → Text
fifo a b = concat (concat a (codes "_to_")) b

module _ (a b : Text) where
  abbrev pub writes_to : Partner → Text
  writes_to p = if p.by_first then fifo a b else fifo b a

  abbrev pub reads_from : Partner → Text
  reads_from p = if p.by_first then fifo b a else fifo a b

  -- One named pipe: `open` comes back for the writer and the reader if they have the same name of it.
  abbrev pub meet : Partner → Partner → Bool
  meet writer reader = text_eq (writes_to writer) (reads_from reader)

  -- A target reads from the first of the others that writes to its pipe; without one its `open` never
  -- comes back.
  unfoldable pub receive : Partner → List Partner → Option ℕ
  receive p [] = none
  receive p (q ∷ qs) = let rest = receive p qs in if meet q p then some q.secret else rest

  -- What those behind the first target read from it.
  unfoldable pub receive_back : Partner → List Partner → Option (List ℕ)
  receive_back p [] = some []
  receive_back p (q ∷ qs) = do s ← receive q (p ∷ []); ss ← receive_back p qs; some (s ∷ ss)

  -- The secrets that the targets read, in the order in which they were found.
  unfoldable pub read_all : List Partner → Option (List ℕ)
  read_all [] = some []
  read_all (p ∷ qs) = do s ← receive p qs; ss ← receive_back p qs; some (s ∷ ss)

  -- A service that is a target makes the file with its name.
  abbrev pub made : Text → List Partner → Bool
  made t [] = false
  made t (p ∷ ps) = text_eq (if p.by_first then a else b) t || made t ps

  -- Where the first target waits it does so until the files of both names are there. The targets take
  -- their files away at the end, and only then does the manager, if it is none of them, go on.
  unfoldable pub swap : Bool → List Partner → Option (List ℕ)
  swap waits ps = if waits && not (made a ps && made b ps) then none else read_all ps

-- The manager, its secret and its list, afterwards.
pub record Exchanged : Type 0 where
  pub all : Services
  pub received : List Text

-- The manager may be a target itself, and then the other is the second; it asks its children.
unfoldable pub search_all : Text → ℕ → Text → Text → Services → Search
search_all manager secret a b h =
    let self = target a b manager secret in
    let others = search a b false 1 h in
    if is_target a b manager
    then record {
      gnum = others.gnum;
      targets = self ∷ others.targets;
      received = manager ∷ others.received;
      waits = false;
    }
    else (let found = search a b false 0 h in record found { received = manager ∷ found.received })

unfoldable pub exchange : Text → ℕ → Text → Text → Services → Option Exchanged
exchange manager secret a b h =
    let found = search_all manager secret a b h in
    do
      news ← swap a b found.waits found.targets
      some (record {
        all = (acquire a b news (child manager secret h end)).0;
        received = found.received;
      })
