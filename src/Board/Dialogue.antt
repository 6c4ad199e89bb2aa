-- ===== src/Board/Dialogue.antt =====
-- A client and the server together (csieBulletinBoard/client.c and server.c).
use system_design.Base.{
  ℕ, ◌+◌, ◌≤◌, ◌<◌, ◌≡◌, refl, ap, ◌∙◌, Bool, true, ◌++◌, [], ◌∷◌, none, some, ltb, length,
  length-append, arith, ◌>>=◌, text_eq, update,
}
use system_design.Board.State.{Text, codes, Server, next_index, record_num, from_len, content_len}
use system_design.Board.Post.{wrap_last, post}
use system_design.Board.Slots.{granted, post_searches}
use system_design.Board.Probing.{give}
use system_design.Board.Submit.{store_post}
use system_design.Board.Command.{sent, silent, has_marker, handle}
use system_design.Board.Message.{submission, Lacks, submit-submission}
use system_design.Board.Interleaving.{with_texts, wrap_last-posts, post_then_store}
use system_design.Board.Client.{
  max_message_length, for_command, for_from, for_content, Dialogue, prompt, show_next, type_word,
  type_words,
}

pub length-submission :
    (from content : Text) → length (submission from content) ≡ 5 + (length from + length content)
unfolding submission
length-submission from content = omega (arith, length-append from (b'+' ∷ content))

pub handle-submission :
    (others : ℕ → Bool) (conn : ℕ) (s : Server) (f : ℕ) (from : Text) (c : ℕ) (content : Text)
    → Lacks b'+' (f ∷ from)
    → Lacks b'+' (c ∷ content)
    → Lacks b'[' (f ∷ from)
    → Lacks b'[' (c ∷ content)
    → handle others conn (submission (f ∷ from) (c ∷ content)) s
      ≡ (do t ← store_post conn (with_texts (f ∷ from) (c ∷ content) s); some (t, silent))
unfolding handle
handle-submission others conn s f from c content hf hc bf bc =
    let (marked, read) = submit-submission conn f from c content s hf hc bf bc in
    rw (marked, read) refl

module _ (others : ℕ → Bool) (conn : ℕ) (s : Server) where
  pub handle-post :
      handle others conn (codes "post") s
      ≡ some ((post others conn s).0, sent (post others conn s).1)
  unfolding handle has_marker text_eq
  handle-post = refl

  abbrev fresh : Text → Dialogue
  fresh shown = record { asks = for_command; server = s; shown = shown }

  module _ (shown : Text) (room : next_index s.last ≤ record_num) where
    -- The server refuses: the client says so and asks for a command again, and no post has changed.
    pub client_refused :
        granted others s ≡ none
        → (d : Dialogue) × (type_words (handle others conn) (codes "post" ∷ []) (fresh shown)
            ≡ some d)
          × (d.asks ≡ for_command)
          × (d.shown ≡ shown ++ (codes "[Error] Maximum posting limit exceeded\n" ++ prompt))
          × (d.server.posts ≡ s.posts)
    unfolding type_words type_word text_eq
    client_refused none_free =
        let (same, reply) = post_searches others conn s room in
        (
          show_next for_command (codes "[Error] Maximum posting limit exceeded\n" ++ prompt)
              (post others conn s).0 (fresh shown),
          rw (handle-post, reply, none_free) refl,
          refl,
          refl,
          same.posts ∙ ap (λ o. (give conn o (wrap_last s)).posts) none_free ∙ wrap_last-posts s,
        )

    -- The server grants a slot: after its name and its text the client asks for a command again, the text
    -- stands in the slot, and `mylock` is as it was.
    pub client_posts :
        (p f : ℕ) (from : Text) (c : ℕ) (content : Text)
        → granted others s ≡ some p
        → length (f ∷ from) < from_len
        → length (c ∷ content) < content_len
        → Lacks b'+' (f ∷ from)
        → Lacks b'+' (c ∷ content)
        → Lacks b'[' (f ∷ from)
        → Lacks b'[' (c ∷ content)
        → (d : Dialogue) × (type_words
              (handle others conn)
              (codes "post" ∷ (f ∷ from) ∷ (c ∷ content) ∷ [])
              (fresh shown)
            ≡ some d)
          × (d.asks ≡ for_command)
          × (d.server.posts ≡ update s.posts p (record { from = f ∷ from; content = c ∷ content }))
          × ((k : ℕ) → d.server.mylock k ≡ s.mylock k)
    unfolding type_words type_word text_eq
    client_posts p f from c content free lf lc hf hc bf bc =
        let (same, reply) = post_searches others conn s room in
        let (t, stored, posts, mylock) =
          post_then_store others conn p (f ∷ from) (c ∷ content) s room free lf lc in
        let after : Server = (post others conn s).0 in
        let d₁ = show_next for_from (codes "FROM: ") after (fresh shown) in
        let d₂ = show_next (for_content (f ∷ from)) (codes "CONTENT:\n") after d₁ in
        let first_fits : ltb (length (f ∷ from)) max_message_length ≡ true = ground arith in
        let second_fits : ltb (length (c ∷ content)) max_message_length ≡ true = ground arith in
        let third_fits : ltb (length (submission (f ∷ from) (c ∷ content))) max_message_length
            ≡ true =
          ground (arith, length-submission (f ∷ from) (c ∷ content)) in
        let first : type_word (handle others conn) (codes "post") for_command (fresh shown)
            ≡ some d₁ =
          rw (handle-post, reply, free) refl in
        let second : type_word (handle others conn) (f ∷ from) for_from d₁ ≡ some d₂ =
          rw first_fits refl in
        let third : type_word (handle others conn) (c ∷ content) (for_content (f ∷ from)) d₂
            ≡ some (show_next for_command prompt t d₂) =
          rw
            (
              second_fits,
              third_fits,
              handle-submission others conn after f from c content hf hc bf bc,
              stored,
            )
            refl in
        (show_next for_command prompt t d₂, rw (first, second, third) refl, refl, posts, mylock)
