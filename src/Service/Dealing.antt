-- ===== src/Service/Dealing.antt =====
-- The whole command "exchange" (HierarchicalServiceManagementSystem/service.c) in messages.
use mathlib.Core.Option.{some-injective}
use system_design.Base.{
  subst, bind_cases, if◌then◌else◌, ℕ, ◌+◌, ◌<◌, ◌≡◌, refl, sym, ap, ◌∙◌, Bool-cases, inl, inr,
  Bool, true, false, List, [], ◌∷◌, map, Option, Option-cases, none, some, ◌>>=◌, ◌==◌, Text,
  text_eq, All, All-append, length, length-append, arith,
}
use system_design.Service.Decimal.{int_limit, atoi-int_to_str}
use system_design.Service.Words.{IsWord, line}
use system_design.Service.Protocol.{heard}
use system_design.Service.Relay.{line-Carries, hand_over_number}
use system_design.Service.Exchange.{
  Services, end, child, Partner, Search, next_gnum, go_on, is_target, target, met, search,
  search_all, meet, receive, receive_back, read_all, swap, acquire, Exchanged, exchange,
}
use system_design.Service.Asking.{pass_secret, pass_secrets, Traded, obey_exchange, manage_exchange}
use system_design.Service.Trading.{
  exchange_words, exchange_text-line, replied, search_child, ask-search,
}

-- Secrets that are an `int`.
abbrev pub Small : Services → Type 0
Small end = Unit
Small (child n s h next) = (s < int_limit) × Small h × Small next

abbrev SmallPartner : Partner → Type 0
SmallPartner p = p.secret < int_limit

go_on-Small :
    (g : ℕ) (asked rest : Search)
    → All SmallPartner asked.targets
    → All SmallPartner rest.targets
    → All SmallPartner (go_on g asked rest).targets
go_on-Small g asked rest f k = elim (Bool-cases (g == 2)) [
  | inl both ↦ rw both f
  | inr more ↦ rw more (All-append SmallPartner asked.targets rest.targets f k)
]

module _ (a b : Text) where
  met-Small :
      (g : ℕ) (n : Text) (s : ℕ) (asked : Search)
      → s < int_limit
      → All SmallPartner asked.targets
      → All SmallPartner (met a b g n s asked).targets
  met-Small g n s asked lt f = elim (Bool-cases (g + 1 == 2)) [
    | inl second ↦ rw second (lt, tt)
    | inr first ↦ rw first (lt, f)
  ]

  search-Small :
      (h : Services) (fixed : Bool) (g : ℕ)
      → Small h
      → All SmallPartner (search a b fixed g h).targets
  search-Small end fixed g small = unfold search in tt
  search-Small (child n s h next) fixed g (lt, below, behind) =
      let g' = next_gnum fixed g (replied a b n s h g).gnum in
      let reply : All SmallPartner (replied a b n s h g).targets =
        elim (Bool-cases (is_target a b n)) [
          | inl hit ↦
              rw hit
                (met-Small g n s (search a b true (g + 1) h) lt (search-Small h true (g + 1) below))
          | inr other ↦ rw other (search-Small h false g below)
        ] in
      rw (search_child a b) (
        go_on-Small g' (replied a b n s h g) (search a b fixed g' next) reply
          (search-Small next fixed g' behind))

-- The secrets that are swapped arrive as they were.
pass_secrets_whole : (ss : List ℕ) → All (λ s. s < int_limit) ss → pass_secrets ss ≡ some ss
unfolding pass_secrets pass_secret
pass_secrets_whole [] f = refl
pass_secrets_whole (s ∷ ss) f =
    rw (hand_over_number s, atoi-int_to_str s f.0, pass_secrets_whole ss f.1) refl

module _ (a b : Text) where
  receive-Small :
      (p : Partner) (qs : List Partner) (s : ℕ)
      → All SmallPartner qs
      → receive a b p qs ≡ some s
      → s < int_limit
  unfolding receive
  receive-Small p [] s f e = absurd (cc)
  receive-Small p (q ∷ qs) s f e = elim (Bool-cases (meet a b q p)) [
    | inl here ↦
        subst (λ n. n < int_limit)
          (some-injective q.secret s
            (sym (ap (λ (t : Bool). if t then some q.secret else receive a b p qs) here) ∙ e))
          f.0
    | inr apart ↦
        receive-Small p qs s f.1
          (sym (ap (λ (t : Bool). if t then some q.secret else receive a b p qs) apart) ∙ e)
  ]

  receive_back-Small :
      (p : Partner) (qs : List Partner) (ss : List ℕ)
      → SmallPartner p
      → receive_back a b p qs ≡ some ss
      → All (λ s. s < int_limit) ss
  unfolding receive_back
  receive_back-Small p [] ss lt e = subst (All (λ s. s < int_limit)) (some-injective _ _ e) tt
  receive_back-Small p (q ∷ qs) ss lt e =
      let (s, first, e') = bind_cases (receive a b q (p ∷ [])) _ ss e in
      let (ss', rest, e'') = bind_cases (receive_back a b p qs) _ ss e' in
      subst (All (λ s. s < int_limit)) (some-injective _ _ e'')
        (receive-Small q (p ∷ []) s (lt, tt) first, receive_back-Small p qs ss' lt rest)

  read_all-Small :
      (ps : List Partner) (news : List ℕ)
      → All SmallPartner ps
      → read_all a b ps ≡ some news
      → All (λ s. s < int_limit) news
  unfolding read_all
  read_all-Small [] news f e = subst (All (λ s. s < int_limit)) (some-injective _ _ e) tt
  read_all-Small (p ∷ qs) news f e =
      let (s, first, e') = bind_cases (receive a b p qs) _ news e in
      let (ss, rest, e'') = bind_cases (receive_back a b p qs) _ news e' in
      subst (All (λ s. s < int_limit)) (some-injective _ _ e'')
        (receive-Small p qs s f.1 first, receive_back-Small p qs ss f.0 rest)

  unless :
      (c : Bool) (o : Option (List ℕ)) (news : List ℕ)
      → (if c then none else o) ≡ some news
      → o ≡ some news
  unless true o news e = absurd (cc)
  unless false o news e = e

  arrive :
      (w : Bool) (ps : List Partner) (news : List ℕ)
      → All SmallPartner ps
      → swap a b w ps ≡ some news
      → pass_secrets news ≡ some news
  unfolding swap
  arrive w ps news f e = pass_secrets_whole news (read_all-Small ps news f (unless _ _ news e))

module _ (a b : Text) (word_a : IsWord a) (word_b : IsWord b) (short_a : length a < 50)
    (short_b : length b < 50) where
  abbrev pub traded : Exchanged → Traded
  traded r = record { all = r.all; log = map (λ n. heard n (line (exchange_words a b))) r.received }

  -- The command "exchange a b" on a line of the input, with words for names that fit the buffers, is
  -- carried out by the processes over their messages as `exchange` says, with the secrets passed as
  -- texts; where it has no result the processes have none. The secrets are an `int`.
  pub obey_exchange-exchange :
      (manager : Text) (secret : ℕ) (h : Services)
      → Small (child manager secret h end)
      → obey_exchange manager secret (line (exchange_words a b)) h
        ≡ (do r ← exchange manager secret a b h; some (traded r))
  unfolding obey_exchange manage_exchange exchange search_all text_eq
  obey_exchange-exchange manager secret h (lt, small, _) =
      let message = line (exchange_words a b) in
      let carried =
        line-Carries (exchange_words a b) (refl, (word_a, (word_b, tt))) (omega arith) (omega arith)
          (omega (arith, length-append a (b' ' ∷ b))) in
      let self = target a b manager secret in
      let same_text = λ (news : List ℕ) (received : List Text).
        ap {B = Option Traded}
          (λ t. some (record {
            all = (acquire a b news (child manager secret h end)).0;
            log = heard manager message ∷ map (λ n. heard n t) received;
          }))
          (exchange_text-line a b) in
      elim (Bool-cases (is_target a b manager)) [
        | inl hit ↦
            let ps = self ∷ (search a b false 1 h).targets in
            let asked = ask-search a b word_a word_b short_a short_b h false 1 (omega arith) in
            elim (Option-cases (swap a b false ps)) [
              | inl stuck ↦ rw (carried.1, hit, asked, stuck) refl
              | inr (news, e) ↦
                  rw
                    (
                      carried.1,
                      hit,
                      asked,
                      e,
                      arrive a b false ps news (lt, search-Small a b h false 1 small) e,
                    )
                    (same_text news (search a b false 1 h).received)
            ]
        | inr other ↦
            let ps = (search a b false 0 h).targets in
            let asked = ask-search a b word_a word_b short_a short_b h false 0 (omega arith) in
            elim (Option-cases (swap a b (search a b false 0 h).waits ps)) [
              | inl stuck ↦ rw (carried.1, other, asked, stuck) refl
              | inr (news, e) ↦
                  rw
                    (
                      carried.1,
                      other,
                      asked,
                      e,
                      arrive a b (search a b false 0 h).waits ps news
                          (search-Small a b h false 0 small) e,
                    )
                    (same_text news (search a b false 0 h).received)
            ]
      ]
