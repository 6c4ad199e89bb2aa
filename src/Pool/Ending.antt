-- ===== src/Pool/Ending.antt =====
-- What a program that uses the pool has done at its end (MultiThread/my_pool.c and the programs under
-- MultiThread/testcases).
use mathlib.Core.List.{append_assoc, append-nil}
use system_design.Base.{
  ℕ, ◌<◌, ◌≡◌, ◌⊎◌, inl, inr, refl, ap, sym, ◌∙◌, true, false, none, some, List, [], ◌∷◌, ◌++◌,
  arith, length, length-append,
}
use system_design.Pool.State.{Call, Heap}
use system_design.Pool.Code.{sleep, leave, take, all_gone}
use system_design.Pool.System.{
  System, gone, Client, outside, waiting, wait_asleep, destroying, destroy_asleep, destroyed,
  signal_b, signal_c, entered, finished, tested_wait, tested_destroy, Step, enter, finish,
  wake_worker, add, call_wait, retest_wait, wake_wait, call_destroy, retest_destroy, wake_destroy,
  start, Reach, later,
}
use system_design.Pool.Safety.{ran_in_order, wait_complete, destroyed_quiet}
use system_design.Pool.Script.{
  wait_jobs, destroy_pool, label, Phase, todo, leaving, over, Program, begin, between, adds, waits,
  destroys, Program-Reach, new_calls, Step-submitted, Step-ran,
}

-- Everything that was added has run.
abbrev Done : System → Type 0
Done s = s.ran ≡ s.submitted

no_more : (xs more rest : List Call) → (xs ++ more) ++ rest ≡ xs → more ≡ []
no_more xs [] rest e = refl
no_more xs (m ∷ more) rest e =
    absurd
      (omega (arith, ap length e, length-append (xs ++ m ∷ more) rest, length-append xs (m ∷ more)))

module _ {n : ℕ} {heap : Heap} {s t : System} (r : Reach n heap s) (st : Step n s t) where
  kept_submitted : new_calls (label st) ≡ [] → t.submitted ≡ s.submitted
  kept_submitted e = Step-submitted st ∙ ap (λ l. s.submitted ++ l) e ∙ append-nil s.submitted

  Done-kept : new_calls (label st) ≡ [] → Done s → Done t
  Done-kept e d =
      let (more, grown) = Step-ran st in
      let (rest, prefix) = ran_in_order (later r st) in
      let none_more : more ≡ [] =
        no_more s.ran more rest
          (ap (λ l. l ++ rest) (sym grown) ∙ prefix ∙ kept_submitted e ∙ sym d) in
      grown ∙ ap (λ l. s.ran ++ l) none_more ∙ append-nil s.ran ∙ d ∙ sym (kept_submitted e)

signal_b-outside : (c : Client) → signal_b c ≡ outside → c ≡ outside
signal_b-outside outside e = refl
signal_b-outside waiting e = e
signal_b-outside wait_asleep e = absurd cc
signal_b-outside destroying e = e
signal_b-outside destroy_asleep e = e
signal_b-outside destroyed e = e

signal_c-outside : (c : Client) → signal_c c ≡ outside → c ≡ outside
signal_c-outside outside e = refl
signal_c-outside waiting e = e
signal_c-outside wait_asleep e = e
signal_c-outside destroying e = e
signal_c-outside destroy_asleep e = absurd cc
signal_c-outside destroyed e = e

-- Where the client comes back into its own code without a call, it has waited.
back_outside :
    {n : ℕ} {heap : Heap} {s t : System}
    → Reach n heap s
    → (st : Step n s t) → label st ≡ none
    → t.client ≡ outside
    → Done s ⊎ (s.client ≡ outside)
unfolding label entered finished tested_destroy all_gone
back_outside r (enter i m sleep lt w run) q e = inr e
back_outside {s = s} r (enter i m leave lt w run) q e = inr (signal_c-outside s.client e)
back_outside r (enter i m (take j) lt w run) q e = inr e
back_outside {s = s} r (finish i j m true lt w run) q e = inr (signal_b-outside s.client e)
back_outside r (finish i j m false lt w run) q e = inr e
back_outside r (wake_worker i lt w) q e = inr e
back_outside r (add a c m out free run) q e = inr out
back_outside r (call_wait out) q e = inr out
back_outside r (retest_wait w) q e = inl (wait_complete r e).0
back_outside r (wake_wait w) q e = absurd cc
back_outside r (call_destroy out) q e = inr out
back_outside {s = s} r (retest_destroy w) q e = absurd (ground (arith, e))
back_outside r (wake_destroy w) q e = absurd cc

waiting_is_over :
    {n : ℕ} {heap : Heap} {s t : System}
    → Reach n heap s
    → (st : Step n s t) → label st ≡ some wait_jobs
    → t.client ≡ outside
    → Done t
unfolding label tested_wait
waiting_is_over r (enter i m x lt w run) q e = absurd cc
waiting_is_over r (finish i j m signal lt w run) q e = absurd cc
waiting_is_over r (wake_worker i lt w) q e = absurd cc
waiting_is_over r (add a c m out free run) q e = absurd cc
waiting_is_over r (call_wait out) q e = (wait_complete r e).0
waiting_is_over r (retest_wait w) q e = absurd cc
waiting_is_over r (wake_wait w) q e = absurd cc
waiting_is_over r (call_destroy out) q e = absurd cc
waiting_is_over r (retest_destroy w) q e = absurd cc
waiting_is_over r (wake_destroy w) q e = absurd cc

destroy_from :
    {n : ℕ} {s t : System} (st : Step n s t) → label st ≡ some destroy_pool → s.client ≡ outside
unfolding label
destroy_from (enter i m x lt w run) q = absurd cc
destroy_from (finish i j m signal lt w run) q = absurd cc
destroy_from (wake_worker i lt w) q = absurd cc
destroy_from (add a c m out free run) q = absurd cc
destroy_from (call_wait out) q = absurd cc
destroy_from (retest_wait w) q = absurd cc
destroy_from (wake_wait w) q = absurd cc
destroy_from (call_destroy out) q = out
destroy_from (retest_destroy w) q = absurd cc
destroy_from (wake_destroy w) q = absurd cc

-- What holds where `main` stands.
abbrev Holds : List Call → Phase → System → Type 0
Holds jobs (todo cs) s = s.submitted ++ cs ≡ jobs
Holds jobs leaving s = (s.submitted ≡ jobs) × (s.client ≡ outside → Done s)
Holds jobs over s = (s.submitted ≡ jobs) × Done s

between-Holds :
    {n : ℕ} {heap : Heap} (jobs : List Call) (ph : Phase) {s t : System}
    → Reach n heap s
    → (st : Step n s t) → label st ≡ none
    → Holds jobs ph s
    → Holds jobs ph t
between-Holds jobs (todo cs) r st e h = ap (λ l. l ++ cs) (kept_submitted r st (ap new_calls e)) ∙ h
between-Holds jobs leaving {s} r st e (all, back) = (
  kept_submitted r st (ap new_calls e) ∙ all,
  λ out. elim (back_outside r st e out) [
    | inl waited ↦ Done-kept r st (ap new_calls e) waited
    | inr before ↦ Done-kept r st (ap new_calls e) (back before)
  ],
)
between-Holds jobs over r st e (all, ran) =
    (kept_submitted r st (ap new_calls e) ∙ all, Done-kept r st (ap new_calls e) ran)

module _ {n : ℕ} {heap : Heap} {jobs : List Call} where
  Program-Holds : {ph : Phase} {s : System} → Program n heap jobs ph s → Holds jobs ph s
  Program-Holds begin = unfold start in refl
  Program-Holds (between {ph = ph} r st e) =
      between-Holds jobs ph (Program-Reach r) st e (Program-Holds r)
  Program-Holds (adds {c = c} {cs = cs} {s = s} r st e) =
      ap (λ l. l ++ cs) (Step-submitted st ∙ ap (λ o. s.submitted ++ new_calls o) e)
      ∙ append_assoc s.submitted (c ∷ []) cs
      ∙ Program-Holds r
  Program-Holds (waits {s = s} r st e) = (
    kept_submitted (Program-Reach r) st (ap new_calls e)
        ∙ sym (append-nil s.submitted)
        ∙ Program-Holds r,
    waiting_is_over (Program-Reach r) st e,
  )
  Program-Holds (destroys r st e) =
      let (all, back) = Program-Holds r in
      (
        kept_submitted (Program-Reach r) st (ap new_calls e) ∙ all,
        Done-kept (Program-Reach r) st (ap new_calls e) (back (destroy_from st e)),
      )

  -- When `main` is behind `tpool_destroy`, exactly its jobs have run, in the order in which they were
  -- added, and every worker has left its loop.
  pub program_ends :
      {s : System}
      → Program n heap jobs over s
      → s.client ≡ destroyed
      → (s.ran ≡ jobs) × ((i : ℕ) → i < n → s.workers i ≡ gone)
  program_ends r e =
      let (all, ran) = Program-Holds r in (ran ∙ all, destroyed_quiet (Program-Reach r) e)
