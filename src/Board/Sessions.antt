-- ===== src/Board/Sessions.antt =====
-- The server from message to message (csieBulletinBoard/server.c).
use system_design.Base.{
  update, false, ℕ, zero, suc, ◌+◌, ◌-◌, ◌<◌, ◌≤◌, ◌≡◌, inl, inr, refl, ap, sym, subst, ◌∙◌, Bool,
  Bool-cases, true, Option, Option-cases, none, some, ltb, ◌==◌, List, [], ◌∷◌, arith, All,
  All-append, text_eq, length,
}
use system_design.Board.State.{
  Text, codes, record_num, from_len, content_len, Server, next_index, upto,
}
use system_design.Board.Post.{post, wrap_last}
use system_design.Board.Pull.{pull}
use system_design.Board.Submit.{fits_field, store_post, assign_tokens, split_plus}
use system_design.Board.Command.{Reply, has_marker, remove_marker, submit, handle}
use system_design.Board.Probing.{first_of_slots, Same, give}
use system_design.Board.Slots.{
  behind, wrap_last-behind, granted, order, post_searches, wrap_last-lt,
}
use system_design.Board.Listing.{pull_lists}
use system_design.Board.Interleaving.{with_texts}

-- `last` and the slots given to clients are indices of the file.
pub record IsValid (s : Server) : Type 0 where
  pub last : next_index s.last ≤ record_num
  pub slots : (conn k : ℕ) → s.slot_of conn ≡ some k → k < record_num

pub Same-IsValid : {s t : Server} → Same s t → IsValid s → IsValid t
Same-IsValid e v = record {
  last = subst (λ o. next_index o ≤ record_num) (sym e.last) v.last;
  slots = λ conn k f. v.slots conn k (sym (ap (λ (g : ℕ → Option ℕ). g conn) e.slot_of) ∙ f);
}

upto-lt : (n m : ℕ) → m + n ≤ record_num → All (λ k. k < record_num) (upto n m)
upto-lt zero m h = tt
upto-lt (suc n) m h = (omega arith, upto-lt n (m + 1) (omega arith))

first_of_slots-lt :
    (test : ℕ → Bool) (ms : List ℕ) (p : ℕ)
    → All (λ k. k < record_num) ms
    → first_of_slots test ms ≡ some p
    → p < record_num
first_of_slots-lt test [] p h e = absurd cc
first_of_slots-lt test (m ∷ ms) p h e = elim (Bool-cases (test m)) [
  | inl here ↦ let same : m ≡ p = ground (arith, e, here) in subst (λ k. k < record_num) same h.0
  | inr other ↦ first_of_slots-lt test ms p h.1 (ground (arith, e, other))
]

granted-lt :
    (others : ℕ → Bool) (s : Server) (p : ℕ)
    → next_index s.last ≤ record_num
    → granted others s ≡ some p
    → p < record_num
granted-lt others s p h e =
    let k = behind s.last in
    let small : k < record_num =
      subst (λ i. i < record_num) (wrap_last-behind s) (wrap_last-lt s h) in
    first_of_slots-lt _ (order k) p
      (All-append (λ j. j < record_num) (upto (record_num - k) k) (upto k 0)
        (upto-lt (record_num - k) k (omega arith)) (upto-lt k 0 (omega arith)))
      e

wrap_last-IsValid : (s : Server) → IsValid s → IsValid (wrap_last s)
unfolding wrap_last
wrap_last-IsValid s v = elim (Bool-cases (next_index s.last == record_num)) [
  | inl full ↦ rw full (record { last = omega arith; slots = v.slots })
  | inr room ↦ rw room v
]

give-IsValid :
    (conn : ℕ) (o : Option ℕ) (s : Server)
    → ((p : ℕ) → o ≡ some p → p < record_num)
    → IsValid s
    → IsValid (give conn o s)
give-IsValid conn none s h v = v
give-IsValid conn (some p) s h v = record {
  last = omega (arith, h p refl);
  slots = λ other k f. elim (Bool-cases (conn == other)) [
    | inl own ↦ h k (ground (arith, f, own))
    | inr apart ↦ v.slots other k (ground (arith, f, apart))
  ];
}

post-IsValid :
    (others : ℕ → Bool) (conn : ℕ) (s : Server) → IsValid s → IsValid (post others conn s).0
post-IsValid others conn s v = Same-IsValid (post_searches others conn s v.last).0 (
    give-IsValid conn (granted others s) (wrap_last s) (λ p e. granted-lt others s p v.last e)
      (wrap_last-IsValid s v))

-- Two servers with the same slots given.
record SameSlots (s t : Server) : Type 0 where
  last : t.last ≡ s.last
  slot_of : t.slot_of ≡ s.slot_of

assign_tokens-SameSlots : (ts : List Text) (s : Server) → SameSlots s (assign_tokens ts s)
unfolding assign_tokens
assign_tokens-SameSlots [] s = record { last = refl; slot_of = refl }
assign_tokens-SameSlots (t ∷ []) s = record { last = refl; slot_of = refl }
assign_tokens-SameSlots (t ∷ u ∷ us) s = record { last = refl; slot_of = refl }

store_post-SameSlots : (conn : ℕ) (s t : Server) → store_post conn s ≡ some t → SameSlots s t
unfolding store_post fits_field
store_post-SameSlots conn s t e = elim (Bool-cases (ltb (length s.str1) from_len)) [
  | inr long ↦ absurd (ground (arith, e, long))
  | inl f ↦ elim (Bool-cases (ltb (length s.str2) content_len)) [
    | inr long ↦ absurd (ground (arith, e, f, long))
    | inl g ↦ elim (Option-cases (s.slot_of conn)) [
      | inl no_slot ↦ absurd (ground (arith, e, f, g, no_slot))
      | inr (slot, o) ↦ elim (Option-cases s.last) [
        | inl no_last ↦ absurd (ground (arith, e, f, g, o, no_last))
        | inr (l, q) ↦ record {
          last = ground (arith, e, f, g, o, q);
          slot_of = ground (arith, e, f, g, o, q);
        }
      ]
    ]
  ]
]

submit-SameSlots :
    (conn : ℕ) (command : Text) (s t : Server) → submit conn command s ≡ some t → SameSlots s t
unfolding submit
submit-SameSlots conn command s t e =
    let ts = split_plus [] (remove_marker command) in
    let a = assign_tokens-SameSlots ts s in
    let b = store_post-SameSlots conn (assign_tokens ts s) t e in
    record { last = b.last ∙ a.last; slot_of = b.slot_of ∙ a.slot_of }

SameSlots-IsValid : {s t : Server} → SameSlots s t → IsValid s → IsValid t
SameSlots-IsValid e v = record {
  last = subst (λ o. next_index o ≤ record_num) (sym e.last) v.last;
  slots = λ conn k f. v.slots conn k (sym (ap (λ (g : ℕ → Option ℕ). g conn) e.slot_of) ∙ f);
}

-- At the start no slot has been given.
pub start-IsValid : (s : Server) → s.last ≡ none → ((conn : ℕ) → s.slot_of conn ≡ none) → IsValid s
start-IsValid s e f = record {
  last = rw e (omega arith);
  slots = λ conn k g. absurd (cc (f conn, g));
}

-- Whatever message a client sends, if the server comes through it then `last` and the slots given to
-- clients are again places of the file.
pub handle-IsValid :
    (others : ℕ → Bool) (conn : ℕ) (command : Text) (s t : Server) (r : Reply)
    → IsValid s
    → handle others conn command s ≡ some (t, r)
    → IsValid t
unfolding handle
handle-IsValid others conn command s t r v e = elim (Bool-cases (has_marker command)) [
  | inl marked ↦ elim (Option-cases (submit conn command s)) [
    | inl fault ↦ absurd (ground (arith, e, marked, fault))
    | inr (u, run) ↦
        let same : u ≡ t = ground (arith, e, marked, run) in
        subst IsValid same (SameSlots-IsValid (submit-SameSlots conn command s u run) v)
  ]
  | inr plain ↦ elim (Bool-cases (text_eq command (codes "post"))) [
    | inl is_post ↦
        let same : (post others conn s).0 ≡ t = ground (arith, e, plain, is_post) in
        subst IsValid same (post-IsValid others conn s v)
    | inr other ↦ elim (Bool-cases (text_eq command (codes "pull"))) [
      | inl is_pull ↦
          let same : (pull others s).server ≡ t = ground (arith, e, plain, other, is_pull) in
          subst IsValid same (Same-IsValid (let (_, _, same, _) = pull_lists others s in same) v)
      | inr neither ↦
          let same : s ≡ t = ground (arith, e, plain, other, neither) in subst IsValid same v
    ]
  ]
]

store_post_last :
    (conn q : ℕ) (s : Server)
    → s.slot_of conn ≡ some q
    → length s.str1 < from_len
    → length s.str2 < content_len
    → (s.last ≡ none → store_post conn s ≡ none)
      × ((l : ℕ) → (t : Server) × (store_post conn (record s { last = some l }) ≡ some t))
unfolding store_post fits_field
store_post_last conn q s slot short_f short_c =
    let f : ltb (length s.str1) from_len ≡ true = ground arith in
    let c : ltb (length s.str2) content_len ≡ true = ground arith in
    (
      (λ e. rw (f, c, slot, e) refl),
      (λ l. (
        record s {
          last = some l;
          posts = update s.posts q (record { from = s.str1; content = s.str2 });
          held = update s.held q false;
          mylock = update s.mylock l false;
        },
        rw (f, c, slot) refl,
      )),
    )

-- If the last slot of the file was given last and no slot is available, a "post" is refused and leaves
-- `last` at -1. The submission after it of a client that has a slot, with texts that fit the record,
-- faults, as it writes to `mylock[-1]`; it would not fault with any index in `last`.
pub full_board_faults :
    (others : ℕ → Bool) (conn writer q : ℕ) (f c : Text) (s : Server)
    → next_index s.last ≡ record_num
    → granted others s ≡ none
    → s.slot_of writer ≡ some q
    → length f < from_len
    → length c < content_len
    → ((post others conn s).1 ≡ codes "0")
      × ((post others conn s).0.last ≡ none)
      × (store_post writer (with_texts f c (post others conn s).0) ≡ none)
      × ((l : ℕ)
          → (t : Server) × (store_post writer
                (record (with_texts f c (post others conn s).0) { last = some l })
              ≡ some t))
unfolding wrap_last
full_board_faults others conn writer q f c s full e slot short_f short_c =
    let (same, reply) = post_searches others conn s (omega arith) in
    let g = subst (λ o. Same (give conn o (wrap_last s)) (post others conn s).0) e same in
    let wrapped : (wrap_last s).last ≡ none = ground (arith, full) in
    let kept : (wrap_last s).slot_of ≡ s.slot_of = ground arith in
    let slot' : (post others conn s).0.slot_of writer ≡ some q =
      ap (λ (o : ℕ → Option ℕ). o writer) (g.slot_of ∙ kept) ∙ slot in
    let (faults, goes_on) =
      store_post_last writer q (with_texts f c (post others conn s).0) slot' short_f short_c in
    (reply ∙ rw e refl, g.last ∙ wrapped, faults (g.last ∙ wrapped), goes_on)
