-- ===== src/Service/Spawning.antt =====
-- The command "spawn p c" in messages (HierarchicalServiceManagementSystem/service.c) does what
-- `spawn_children` says.
use mathlib.Core.List.{map-append}
use system_design.Base.{
  ◌<◌, ◌≡◌, refl, Bool-cases, inl, inr, Bool, true, false, List, [], ◌∷◌, map, Option, Option-cases,
  some, if◌then◌else◌, ◌>>=◌, ◌==◌, ltb, Text, text_eq, length, arith,
}
use system_design.Service.State.{Children, end, child, Event, received, count}
use system_design.Service.Spawn.{Answer, add_child, first_named, my_spawn, spawn_children}
use system_design.Service.Protocol.{
  Printed, heard, told, spawn_word, yes_word, no_word, Loop, spawning, first_reply, Asked, Answered,
  hand_over, start_child, start_message, manager_name, serve_message, serve_spawn, count_reply, ask,
}
use system_design.Service.Relay.{Carries, hand_over_word}

-- An event of a command, as it is printed.
abbrev pub printed : Text → Event → Printed
printed m (received n) = heard n m
printed m e = told e

abbrev pub reply_word : Bool → Text
reply_word b = if b then yes_word else no_word

abbrev pub spawn_words : Text → Text → List Text
spawn_words p c = spawn_word ∷ p ∷ c ∷ []

module _ (m p c : Text) (short : length c < 16) (other_name : text_eq c manager_name ≡ false) where
  abbrev pub spawn_told : Answer → Asked
  spawn_told a = record {
    head = a.head;
    log = map (printed m) a.log;
    reply = reply_word a.reply;
    num = 0;
    hit = false;
  }

  abbrev spawn_served : Text → Answer → Answered
  spawn_served n a = record {
    head = a.head;
    log = heard n m ∷ map (printed m) a.log;
    reply = reply_word a.reply;
    ended = false;
  }

  hand_over_reply : (b : Bool) → hand_over (reply_word b) ≡ some (reply_word b)
  hand_over_reply true = hand_over_word yes_word refl (omega arith)
  hand_over_reply false = hand_over_word no_word refl (omega arith)

  pub start_child-my_spawn :
      (h : Children) → start_child c h ≡ (do a ← my_spawn c h; some (a, reply_word a.reply))
  unfolding start_child start_message my_spawn
  start_child-my_spawn h =
      let fits : ltb (length c) 16 ≡ true = ground arith in
      elim (Bool-cases (first_named c (add_child c h) == count h)) [
        | inl first ↦ rw (fits, first, other_name, hand_over_reply true) refl
        | inr later ↦ rw (fits, later) refl
      ]

  serve_message-spawns :
      (below : Loop → Text → Option Asked) (n : Text) (h : Children)
      → Carries m (spawn_words p c)
      → below spawning m ≡ (do a ← spawn_children p c h; some (spawn_told a))
      → serve_message below n m h ≡ (do
        a ← if text_eq n p then my_spawn c h else spawn_children p c h
        some (spawn_served n a))
  unfolding serve_message serve_spawn text_eq my_spawn
  serve_message-spawns below n h (whole, ws) passed = elim (Bool-cases (text_eq n p)) [
    | inl own ↦ elim (Bool-cases (first_named c (add_child c h) == count h)) [
      | inl first ↦ rw (ws, own, start_child-my_spawn h, first) refl
      | inr later ↦ rw (ws, own, start_child-my_spawn h, later) refl
    ]
    | inr other ↦ elim (Option-cases (spawn_children p c h)) [
      | inl stuck ↦ rw (ws, other, passed, stuck) refl
      | inr (a, e) ↦ rw (ws, other, passed, e) refl
    ]
  ]

  pub ask-spawns :
      (h : Children)
      → Carries m (spawn_words p c)
      → ask spawning m no_word 0 h ≡ (do a ← spawn_children p c h; some (spawn_told a))
  unfolding ask count_reply spawn_children text_eq
  ask-spawns end carried = refl
  ask-spawns (child n h next) carried =
      let first =
        serve_message-spawns (λ l m'. ask l m' (first_reply l) 0 h) n h carried
          (ask-spawns h carried) in
      elim (Option-cases (if text_eq n p then my_spawn c h else spawn_children p c h)) [
        | inl stuck ↦ rw (carried.0, first, stuck) refl
        | inr (a, e) ↦ elim (Bool-cases a.reply) [
          | inl found ↦ rw (carried.0, first, e, found, hand_over_reply true) refl
          | inr go_on ↦ elim (Option-cases (spawn_children p c next)) [
            | inl stuck ↦
                rw
                  (
                    carried.0,
                    first,
                    e,
                    go_on,
                    hand_over_reply false,
                    ask-spawns next carried,
                    stuck,
                  )
                  refl
            | inr (b, f) ↦
                rw
                  (
                    carried.0,
                    first,
                    e,
                    go_on,
                    hand_over_reply false,
                    ask-spawns next carried,
                    f,
                    map-append,
                  )
                  refl
          ]
        ]
      ]
