-- ===== src/Service/Obeying.antt =====
-- A line of the manager's input (HierarchicalServiceManagementSystem/service.c), carried out by
-- messages, against the commands `spawn` and `kill` on the tree of processes.
use mathlib.Core.List.{map-append}
use system_design.Base.{
  ◌+◌, ◌-◌, ◌<◌, ◌≡◌, refl, sym, ap, ◌∙◌, Bool-cases, inl, inr, true, false, [], ◌∷◌, ◌++◌, map,
  Option-cases, some, ◌>>=◌, ◌==◌, ltb, Text, text_eq, text_eq_sound, All-append, ◌≢◌, length,
  length-append, arith, codes,
}
use system_design.Service.State.{Children, Event, started, missing, spawned, killed, size, count}
use system_design.Service.Spawn.{spawn, spawn_children, my_spawn, first_named, add_child}
use system_design.Service.Kill.{kill_all, kill_children, settle, kill}
use system_design.Service.Pipes.{buffer_len}
use system_design.Service.Decimal.{int_limit}
use system_design.Service.Words.{
  concat, IsWord, line, words, words-before, words-space, words-last, words-line,
}
use system_design.Service.Protocol.{
  heard, told, kill_word, yes_word, no_word, manager_name, settle_node,
}
use system_design.Service.Relay.{
  Carries, line-Carries, hand_over-NoNul, IsWord-NoNul, arguments-words,
}
use system_design.Service.Ending.{final_words, ask-ends}
use system_design.Service.Spawning.{printed, spawn_words, ask-spawns, start_child-my_spawn}
use system_design.Service.Killing.{kill_words, ask-kills, atoi_zero}
use system_design.Service.Manager.{obey, manage_spawn, manage_kill, marked}

-- The final message of the manager, with two blanks before the mark.
manager_message-Carries :
    (t : Text)
    → IsWord t
    → length t < 100
    → Carries (kill_word ++ b' ' ∷ (t ++ codes "  Y")) (final_words t)
manager_message-Carries t f short =
    let m = kill_word ++ b' ' ∷ (t ++ codes "  Y") in
    let ws : words m ≡ final_words t =
      words-before kill_word (t ++ codes "  Y") refl
      ∙ ap (λ l. kill_word ∷ l)
          (words-before t (codes " Y") f
            ∙ ap (λ l. t ∷ l) (words-space yes_word ∙ words-last yes_word refl)) in
    (
      hand_over-NoNul m
          (All-append (λ c. c ≢ 0) kill_word (b' ' ∷ (t ++ codes "  Y"))
            (IsWord-NoNul kill_word refl)
            (
              (λ e. omega (arith, e)),
              All-append (λ c. c ≢ 0) t (codes "  Y") (IsWord-NoNul t f)
                  (
                    (λ e. omega (arith, e)),
                    ((λ e. omega (arith, e)), ((λ e. omega (arith, e)), tt)),
                  ),
            ))
          (omega (arith, length-append t (codes "  Y"))),
      arguments-words m (final_words t) ws (omega arith) (omega arith),
    )

module _ (manager : Text) (h : Children) where
  pub obey-kill :
      (t : Text)
      → IsWord t
      → length t < 100
      → size h + 1 < int_limit
      → obey manager (line (kill_word ∷ t ∷ [])) h
        ≡ some (record {
          head = (kill manager t h).0;
          log = map (printed (line (kill_word ∷ t ∷ []))) (kill manager t h).1;
        })
  unfolding obey manage_kill marked kill text_eq settle_node settle
  obey-kill t f short lt =
      let message = line (kill_word ∷ t ∷ []) in
      let ws =
        arguments-words message (kill_word ∷ t ∷ [])
          (words-line (kill_word ∷ t ∷ []) (refl, (f, tt))) (omega arith) (omega arith) in
      let fits : ltb (length (concat message (codes " N"))) buffer_len ≡ true =
        ground (arith, length-append t (codes " N")) in
      let carried =
        line-Carries (kill_words t) (refl, (f, (refl, tt))) (omega arith) (omega arith)
          (omega (arith, length-append t (b' ' ∷ no_word))) in
      elim (Bool-cases (text_eq t manager)) [
        | inl own ↦
            let (r, ended) =
              ask-ends t h (kill_word ++ b' ' ∷ (t ++ codes "  Y")) (codes "0") 0 f short
                (manager_message-Carries t f short) lt in
            let none_yet : 0 + kill_all h ≡ kill_all h = omega arith in
            rw (ws, fits, own, ended, none_yet) refl
        | inr other ↦
            let w = kill_children t h in
            let (r, asked, number) = ask-kills _ t h (codes "0") f short carried lt atoi_zero in
            let split : (e : Event)
                → map (printed message) (w.log ++ e ∷ [])
                  ≡ map (printed message) w.log ++ printed message e ∷ [] =
              λ e. map-append (printed message) w.log (e ∷ []) in
            elim (Bool-cases (w.num == 0)) [
              | inl missed ↦ rw (ws, fits, other, asked, number, missed, split (missing t)) refl
              | inr found ↦
                  rw (ws, fits, other, asked, number, found, split (killed t (w.num - 1))) refl
            ]
      ]

  pub obey-spawn :
      (p c : Text)
      → IsWord p
      → IsWord c
      → length p < 100
      → length c < 16
      → text_eq c manager_name ≡ false
      → obey manager (line (spawn_words p c)) h ≡ (do
        (k, log) ← spawn manager p c h
        some (record { head = some k; log = map (printed (line (spawn_words p c))) log }))
  unfolding obey manage_spawn spawn my_spawn text_eq
  obey-spawn p c f g short fits named =
      let message = line (spawn_words p c) in
      let carried =
        line-Carries (spawn_words p c) (refl, (f, (g, tt))) (omega arith) (omega arith)
          (omega (arith, length-append p (b' ' ∷ c))) in
      elim (Bool-cases (text_eq p manager)) [
        | inl own ↦ elim (Bool-cases (first_named c (add_child c h) == count h)) [
          | inl first ↦
              rw (carried.1, own, start_child-my_spawn message p c fits named h, first)
                (ap
                  (λ q. some (record {
                    head = some (add_child c h);
                    log = heard manager message ∷ told (started c) ∷ told (spawned q c) ∷ [];
                  }))
                  (sym (text_eq_sound p manager own)))
          | inr later ↦
              rw (carried.1, own, start_child-my_spawn message p c fits named h, later) refl
        ]
        | inr other ↦ elim (Option-cases (spawn_children p c h)) [
          | inl stuck ↦
              rw (carried.1, other, ask-spawns message p c fits named h carried, stuck) refl
          | inr (a, e) ↦ elim (Bool-cases a.reply) [
            | inl done ↦
                rw
                  (
                    carried.1,
                    other,
                    ask-spawns message p c fits named h carried,
                    e,
                    done,
                    map-append (printed message) a.log (spawned p c ∷ []),
                  )
                  refl
            | inr absent ↦
                rw
                  (
                    carried.1,
                    other,
                    ask-spawns message p c fits named h carried,
                    e,
                    absent,
                    map-append (printed message) a.log (missing p ∷ []),
                  )
                  refl
          ]
        ]
      ]
