-- ===== src/Service/Trading.antt =====
-- The command "exchange" in messages (HierarchicalServiceManagementSystem/service.c) does what `exchange`
-- says.
use mathlib.Core.List.{map-append, append_assoc}
use system_design.Base.{
  ℕ, ◌+◌, ◌<◌, ◌≤◌, ◌≡◌, refl, ap, Bool-cases, inl, inr, Bool, true, false, List, [], ◌∷◌, ◌++◌,
  map, Option, some, if◌then◌else◌, ◌==◌, Text, text_eq, length, length-append, arith,
}
use system_design.Service.Decimal.{int_to_str, atoi-int_to_str}
use system_design.Service.Words.{IsWord, line, arguments, int_to_str-IsWord, length-int_to_str}
use system_design.Service.Protocol.{heard}
use system_design.Service.Relay.{Carries, line-Carries, hand_over_number}
use system_design.Service.Exchange.{
  Services, end, child, Search, next_gnum, go_on, is_target, met, search,
}
use system_design.Service.Asking.{
  exchange_word, exchange_text, numbered, Seen, serve_exchange, ask_exchange,
}

five_parts : (a s b n : Text) → (((a ++ s) ++ b) ++ s) ++ n ≡ a ++ (s ++ (b ++ (s ++ n)))
five_parts a s b n = simp append_assoc

module _ (a b : Text) where
  abbrev pub exchange_words : List Text
  exchange_words = exchange_word ∷ a ∷ b ∷ []

  pub exchange_text-line : exchange_text exchange_word a b ≡ line exchange_words
  exchange_text-line = ap (λ t. exchange_word ++ b' ' ∷ t) (append_assoc a (b' ' ∷ []) b)

  numbered-line :
      (g : ℕ)
      → numbered (exchange_text exchange_word a b) g
        ≡ line (exchange_word ∷ a ∷ b ∷ int_to_str g ∷ [])
  numbered-line g = ap (λ t. exchange_word ++ b' ' ∷ t) (five_parts a (b' ' ∷ []) b (int_to_str g))

  -- What a child replies, as `search` has it.
  abbrev pub replied : Text → ℕ → Services → ℕ → Search
  replied n s h g = if is_target a b n then met a b g n s (search a b true (g + 1) h) else record {
    gnum = (search a b false g h).gnum;
    targets = (search a b false g h).targets;
    received = n ∷ (search a b false g h).received;
    waits = (search a b false g h).waits;
  }

  pub search_child :
      (fixed : Bool) (g : ℕ) (n : Text) (s : ℕ) (h next : Services)
      → let g' = next_gnum fixed g (replied n s h g).gnum in
        search a b fixed g (child n s h next)
        ≡ go_on g' (replied n s h g) (search a b fixed g' next)
  unfolding search
  search_child fixed g n s h next = refl

  next_gnum-le : (fixed : Bool) (g r : ℕ) → g ≤ 2 → r ≤ 2 → next_gnum fixed g r ≤ 2
  next_gnum-le true g r f l = ground arith
  next_gnum-le false g r f l = l

  go_on-gnum :
      (g : ℕ) (asked rest : Search)
      → g ≤ 2
      → (g < 2 → rest.gnum ≤ 2)
      → (go_on g asked rest).gnum ≤ 2
  go_on-gnum g asked rest lt f = ground (arith, f)

  replied-gnum :
      (n : Text) (s : ℕ) (h : Services) (g : ℕ)
      → g < 2
      → (g + 1 < 2 → (search a b true (g + 1) h).gnum ≤ 2)
      → (search a b false g h).gnum ≤ 2
      → (replied n s h g).gnum ≤ 2
  replied-gnum n s h g small asked passed = ground (arith, asked)

  search-gnum : (h : Services) (fixed : Bool) (g : ℕ) → g < 2 → (search a b fixed g h).gnum ≤ 2
  search-gnum end fixed g small = unfold search in omega arith
  search-gnum (child n s h next) fixed g small =
      let reply =
        replied-gnum n s h g small (search-gnum h true (g + 1)) (search-gnum h false g small) in
      let g' = next_gnum fixed g (replied n s h g).gnum in
      rw search_child (
        go_on-gnum g' (replied n s h g) (search a b fixed g' next)
          (next_gnum-le fixed g (replied n s h g).gnum (omega arith) reply)
          (search-gnum next fixed g'))

  module _ (word_a : IsWord a) (word_b : IsWord b) (short_a : length a < 50)
      (short_b : length b < 50) where
    abbrev seen : Search → Seen
    seen r = record {
      gnum = r.gnum;
      targets = r.targets;
      log = map (λ n. heard n (exchange_text exchange_word a b)) r.received;
      waits = r.waits;
    }

    message-Carries :
        (g : ℕ)
        → Carries
            (numbered (exchange_text exchange_word a b) g)
            (exchange_word ∷ a ∷ b ∷ int_to_str g ∷ [])
    message-Carries g =
        let ws = exchange_word ∷ a ∷ b ∷ int_to_str g ∷ [] in
        rw (numbered-line g) (
          line-Carries ws (refl, (word_a, (word_b, (int_to_str-IsWord g, tt)))) (omega arith)
            (omega arith)
            (omega (
              arith,
              length-append a (b' ' ∷ (b ++ b' ' ∷ int_to_str g)),
              length-append b (b' ' ∷ int_to_str g),
              length-int_to_str g,
            )))

    serve_exchange-replied :
        (below : Bool → Text → ℕ → Option Seen) (n m : Text) (s : ℕ) (h : Services) (g : ℕ)
        → g < 2
        → arguments m ≡ some (exchange_word ∷ a ∷ b ∷ int_to_str g ∷ [])
        → (g + 1 < 2
            → below true (exchange_text exchange_word a b) (g + 1)
              ≡ some (seen (search a b true (g + 1) h)))
        → below false (exchange_text exchange_word a b) g ≡ some (seen (search a b false g h))
        → serve_exchange below n s m ≡ some (seen (replied n s h g))
    unfolding serve_exchange text_eq
    serve_exchange-replied below n m s h g small ws asked passed =
        let number = atoi-int_to_str g (omega arith) in
        elim (Bool-cases (is_target a b n)) [
          | inl hit ↦ elim (Bool-cases (g + 1 == 2)) [
            | inl second ↦ rw (ws, number, hit, second) refl
            | inr first ↦ rw (ws, number, hit, first, asked (ground (arith, first))) refl
          ]
          | inr other ↦ rw (ws, number, other, passed) refl
        ]

    pub ask-search :
        (h : Services) (fixed : Bool) (g : ℕ)
        → g < 2
        → ask_exchange fixed (exchange_text exchange_word a b) g h
          ≡ some (seen (search a b fixed g h))
    unfolding ask_exchange
    ask-search end fixed g small = unfold search in refl
    ask-search (child n s h next) fixed g small =
        let text = exchange_text exchange_word a b in
        let reply = replied n s h g in
        let bound =
          replied-gnum n s h g small (search-gnum h true (g + 1)) (search-gnum h false g small) in
        let g' = next_gnum fixed g reply.gnum in
        let carried = message-Carries g in
        let served =
          serve_exchange-replied (λ f t k. ask_exchange f t k h) n _ s h g small carried.1
            (ask-search h true (g + 1)) (ask-search h false g small) in
        let number = atoi-int_to_str reply.gnum (omega (arith, bound)) in
        elim (Bool-cases (g' == 2)) [
          | inl both ↦
              rw (search_child, carried.0, served, hand_over_number reply.gnum, number, both) refl
          | inr more ↦
              rw
                (
                  search_child,
                  carried.0,
                  served,
                  hand_over_number reply.gnum,
                  number,
                  more,
                  ask-search next fixed g'
                      (ground (arith, more, next_gnum-le fixed g reply.gnum (omega arith) bound)),
                  map-append (λ n. heard n text) reply.received (search a b fixed g' next).received,
                )
                refl
        ]
