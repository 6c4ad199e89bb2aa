-- ===== src/Threads/Accounts.antt =====
-- The balance that the lines of the bank operations tell of (UserLevelThreadLibrary/threads.c).
use system_design.Base.{
  ℕ, ◌+◌, ◌-◌, ◌≡◌, subst, sym, ℤ, pos, negsuc, true, ◌&&◌, Option, none, some, List, [], ◌∷◌,
  arith, ◌==◌, bind_cases, if◌then◌else◌, ltb,
}
use system_design.Threads.Programs.{int_result}
use system_design.Threads.Machine.{
  Line, created, number, acquired, released, balance_changed, caught_tstp, caught_alrm,
  update_balance,
}
use system_design.Threads.Ledger.{entry, ledger}
use system_design.Threads.Serial.{guarded}

-- What an argument asks for: a deposit, or a withdrawal if the balance covers it.
abbrev pub due : ℤ → ℕ → ℕ
due (pos n) b = b + n
due (negsuc n) b = if ltb n b then b - (n + 1) else b

-- The balance behind the lines: each change starts at the balance so far and ends at what is due.
abbrev pub accounts : (ℕ → ℤ) → ℕ → List Line → Option ℕ
accounts amount b [] = some b
accounts amount b (balance_changed u before now ∷ lines) =
    let rest = accounts amount now lines in
    if b == before && now == due (amount u) b then rest else none
accounts amount b (line ∷ lines) = accounts amount b lines

update_balance-due : (x : ℤ) (b b' : ℕ) → update_balance x b ≡ some b' → b' ≡ due x b
unfolding update_balance int_result
update_balance-due (pos n) b b' e = ground (arith, e)
update_balance-due (negsuc n) b b' e = ground (arith, e)

pub ledger-accounts :
    (amount : ℕ → ℤ) (b : ℕ) (xs : List Line) (c : ℕ)
    → ledger amount b xs ≡ some c
    → accounts amount b xs ≡ some c
ledger-accounts amount b [] c e = e
ledger-accounts amount b (balance_changed u x y ∷ xs) c e =
    let (b₁, entered, rest) = bind_cases (entry amount b (balance_changed u x y)) _ c e in
    let (b₂, updated, tested) = bind_cases (update_balance (amount u) b) _ b₁ entered in
    let (t, now) = guarded (b == x && b₂ == y) y b₁ tested in
    let owed = update_balance-due (amount u) b b₂ updated in
    let fits : (b == x && y == due (amount u) b) ≡ true = ground (arith, t, owed) in
    rw fits
      (subst (λ k. accounts amount k xs ≡ some c) (sym now) (ledger-accounts amount b₁ xs c rest))
ledger-accounts amount b (created u f ∷ xs) c e = ledger-accounts amount b xs c e
ledger-accounts amount b (number u v ∷ xs) c e = ledger-accounts amount b xs c e
ledger-accounts amount b (acquired u ∷ xs) c e = ledger-accounts amount b xs c e
ledger-accounts amount b (released u ∷ xs) c e = ledger-accounts amount b xs c e
ledger-accounts amount b (caught_tstp ∷ xs) c e = ledger-accounts amount b xs c e
ledger-accounts amount b (caught_alrm ∷ xs) c e = ledger-accounts amount b xs c e
