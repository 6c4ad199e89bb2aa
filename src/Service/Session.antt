-- ===== src/Service/Session.antt =====
-- The manager's input as a list of commands (HierarchicalServiceManagementSystem/service.c), and what
-- the processes do with it over their messages.
use mathlib.Core.List.{append_assoc}
use system_design.Base.{
  ℕ, zero, suc, ◌+◌, ◌<◌, ◌≤◌, ◌≡◌, refl, ap, subst, ◌∙◌, inl, inr, Bool, true, false, ◌||◌, ◌&&◌,
  not, List, [], ◌∷◌, ◌++◌, map, Option, Option-cases, none, some, ◌>>=◌, ◌==◌, Text, text_eq, All,
  length, length-append, arith,
}
use system_design.Service.State.{Children, size}
use system_design.Service.Spawn.{spawn}
use system_design.Service.Kill.{kill}
use system_design.Service.Decimal.{int_limit}
use system_design.Service.Words.{IsWord, line}
use system_design.Service.Protocol.{kill_word, manager_name}
use system_design.Service.Spawning.{printed, spawn_words}
use system_design.Service.Manager.{Managed, obey, read_line, and_then, run_manager}
use system_design.Service.Obeying.{obey-kill, obey-spawn}
use system_design.Service.Sizes.{Bounded, kill-Bounded, Kept, spawn-Kept}

pub data Command : Type 0 where
  spawn_command : Text → Text → Command
  kill_command : Text → Command

abbrev pub typed : Command → Text
typed (spawn_command p c) = line (spawn_words p c)
typed (kill_command t) = line (kill_word ∷ t ∷ [])

-- The input: each command on a line.
abbrev pub input : List Command → Text
input [] = []
input (c ∷ cs) = typed c ++ b'\n' ∷ input cs

-- No end of a line and no byte 255.
abbrev pub one_line : Text → Bool
one_line [] = true
one_line (c ∷ s) = not (c == b'\n' || c == 255) && one_line s

abbrev pub IsName : Text → Type 0
IsName w = IsWord w × (one_line w ≡ true)

-- Names that fit the buffers, and none but the manager's own is "Manager".
abbrev pub Fits : Command → Type 0
Fits (spawn_command p c) =
    IsName p × IsName c × (length p < 100) × (length c < 16) × (text_eq c manager_name ≡ false)
Fits (kill_command t) = IsName t × (length t < 100)

-- What a command does to the tree of processes, and its lines as they are printed.
unfoldable pub carry_out : Text → Command → Children → Option Managed
carry_out manager (spawn_command p c) h = do
  (k, log) ← spawn manager p c h
  some (record { head = some k; log = map (printed (typed (spawn_command p c))) log })
carry_out manager (kill_command t) h =
    let (k, log) = kill manager t h in
    some (record { head = k; log = map (printed (typed (kill_command t))) log })

unfoldable pub carry_out_all : Text → List Command → Children → Option Managed
carry_out_all manager [] h = some (record { head = some h; log = [] })
carry_out_all manager (c ∷ cs) h = do
  o ← carry_out manager c h
  and_then o (λ k. carry_out_all manager cs k)

read_line-line :
    (n : ℕ) (w rest : Text)
    → one_line w ≡ true
    → length w ≤ n
    → read_line n (w ++ b'\n' ∷ rest) ≡ (w, rest)
unfolding read_line
read_line-line zero [] rest f lt = refl
read_line-line (suc n) [] rest f lt = refl
read_line-line zero (c ∷ w) rest f lt = absurd (omega arith)
read_line-line (suc n) (c ∷ w) rest f lt =
    let more : (c == b'\n' || c == 255) ≡ false = ground (arith, f) in
    let behind : one_line w ≡ true = ground (arith, f) in
    rw (more, read_line-line n w rest behind (omega arith)) refl

one_line-append : (s t : Text) → one_line s ≡ true → one_line t ≡ true → one_line (s ++ t) ≡ true
one_line-append [] t f g = g
one_line-append (c ∷ s) t f g =
    let here : (c == b'\n' || c == 255) ≡ false = ground (arith, f) in
    let behind : one_line s ≡ true = ground (arith, f) in
    rw (here, one_line-append s t behind g) refl

typed-one_line : (c : Command) → Fits c → (one_line (typed c) ≡ true) × (length (typed c) ≤ 127)
typed-one_line (spawn_command p c) (fp, fc, lp, lc, other) =
    (one_line-append p (b' ' ∷ c) fp.1 fc.1, omega (arith, length-append p (b' ' ∷ c)))
typed-one_line (kill_command t) (ft, lt) = (ft.1, omega arith)

obey-typed :
    (manager : Text) (c : Command) (h : Children)
    → Fits c
    → size h + 1 < int_limit
    → obey manager (typed c) h ≡ carry_out manager c h
unfolding carry_out
obey-typed manager (spawn_command p c) h (fp, fc, lp, lc, other) lt =
    obey-spawn manager h p c fp.0 fc.0 lp lc other
obey-typed manager (kill_command t) h (ft, short) lt = obey-kill manager h t ft.0 short lt

-- The tree after a command is at most one process larger.
abbrev Grown : ℕ → Option Managed → Type 0
Grown n none = Unit
Grown n (some o) = Bounded n o.head

carry_out-Grown :
    (manager : Text) (c : Command) (h : Children) → Grown (size h + 1) (carry_out manager c h)
unfolding carry_out
carry_out-Grown manager (spawn_command p c) h = elim (Option-cases (spawn manager p c h)) [
  | inl stuck ↦ rw stuck tt
  | inr ((k, log), e) ↦ rw e (subst (Kept (size h + 1)) e (spawn-Kept manager p c h))
]
carry_out-Grown manager (kill_command t) h = kill-Bounded manager t h

and_then-Bounded :
    (o : Managed) (f g : Children → Option Managed) (n : ℕ)
    → Bounded n o.head
    → ((k : Children) → size k ≤ n → f k ≡ g k)
    → and_then o f ≡ and_then o g
unfolding and_then
and_then-Bounded o f g n b same = elim (Option-cases o.head) [
  | inl ended ↦ rw ended refl
  | inr (k, e) ↦ rw (e, same k (subst (Bounded n) e b)) refl
]

-- Commands "spawn p c" and "kill t", each on a line of the input, whose names are words that fit the
-- buffers, the new ones other than "Manager", are carried out by the processes over their messages, one
-- after the other, as the operations on the tree say, with the lines printed as they say; where these
-- have no result the processes have none. An `int` can count the processes.
pub run_manager-input :
    (manager : Text) (cs : List Command) (rest : Text) (h : Children)
    → All Fits cs
    → size h + length cs < int_limit
    → run_manager (length cs) manager (input cs ++ rest) h ≡ carry_out_all manager cs h
unfolding run_manager carry_out_all and_then
run_manager-input manager [] rest h f lt = refl
run_manager-input manager (c ∷ cs) rest h f lt =
    let (one, short) = typed-one_line c f.0 in
    let got : read_line 127 (input (c ∷ cs) ++ rest) ≡ (typed c, input cs ++ rest) =
      ap (read_line 127) (append_assoc (typed c) (b'\n' ∷ input cs) rest)
      ∙ read_line-line 127 (typed c) (input cs ++ rest) one short in
    elim (Option-cases (carry_out manager c h)) [
      | inl stuck ↦ rw (got, obey-typed manager c h f.0 (omega arith), stuck) refl
      | inr (o, e) ↦
          rw (got, obey-typed manager c h f.0 (omega arith), e)
            (and_then-Bounded o _ _ (size h + 1)
              (subst (Grown (size h + 1)) e (carry_out-Grown manager c h))
              (λ k small. run_manager-input manager cs rest k f.1 (omega arith)))
    ]
