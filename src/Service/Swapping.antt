-- ===== src/Service/Swapping.antt =====
-- What the command "exchange" does to the secrets (HierarchicalServiceManagementSystem/service.c).
use mathlib.Core.List.{append-nil}
use system_design.Base.{
  ℕ, ◌≡◌, ◌⊎◌, refl, ap, sym, ◌∙◌, inl, inr, Bool, Option, if◌then◌else◌, ◌&&◌, not, Bool-cases,
  true, false, List, [], ◌∷◌, ◌++◌, arith, Text, text_eq, text_eq_refl, some, none,
}
use system_design.Service.Exchange.{
  read_all, Services, end, child, Partner, is_target, target, search_all, acquire, fifo, receive,
  receive_back, swap, Exchanged, exchange,
}
use system_design.Service.Seeking.{entries, seek, seek_hit, search-Found}
use system_design.Service.Acquiring.{
  put, put_none, acquire-Given, Missed, seek-Missed, put-Missed, put_hit,
}

module _ (a b : Text) where
  -- Two targets that go by different names.
  abbrev Apart : Text → Text → Type 0
  Apart c d =
      ((text_eq c a ≡ true) × (text_eq d a ≡ false))
      ⊎ ((text_eq c a ≡ false) × (text_eq d a ≡ true))

  waited :
      (w m : Bool) (news o : Option (List ℕ))
      → m ≡ true
      → news ≡ o
      → (if w && not m then none else news) ≡ o
  waited w m news o e f = ground (arith, e, f)

  swap-Apart :
      (c d : Text) (s t : ℕ)
      → Apart c d
      → (w : Bool) → swap a b w (target a b c s ∷ target a b d t ∷ []) ≡ some (t ∷ s ∷ [])
  unfolding swap read_all receive receive_back
  swap-Apart c d s t (inl (x, y)) w =
      waited w _ _ _ (rw (x, y) (rw (text_eq_refl a, text_eq_refl b) (ground arith)))
        (rw (x, y) (rw (text_eq_refl (fifo b a), text_eq_refl (fifo a b)) refl))
  swap-Apart c d s t (inr (x, y)) w =
      waited w _ _ _ (rw (x, y) (rw (text_eq_refl a, text_eq_refl b) (ground arith)))
        (rw (x, y) (rw (text_eq_refl (fifo a b), text_eq_refl (fifo b a)) refl))

  -- The two names, in either order.
  abbrev Roles : Text → Text → Type 0
  Roles c d = ((c ≡ a) × (d ≡ b)) ⊎ ((c ≡ b) × (d ≡ a))

  goes_by : (n m : Text) → n ≡ m → text_eq n m ≡ true
  goes_by n m e = ap (λ x. text_eq x m) e ∙ text_eq_refl m

  Roles-Apart : (c d : Text) → text_eq b a ≡ false → Roles c d → Apart c d
  Roles-Apart c d n (inl (x, y)) = inl (goes_by c a x, ap (λ z. text_eq z a) y ∙ n)
  Roles-Apart c d n (inr (x, y)) = inr (ap (λ z. text_eq z a) x ∙ n, goes_by d a y)

  first_target : (n : Text) → n ≡ a → is_target a b n ≡ true
  first_target n e = rw (goes_by n a e) refl

  second_target : (n : Text) → n ≡ b → is_target a b n ≡ true
  second_target n e = elim (Bool-cases (text_eq n a)) [
    | inl also ↦ rw also refl
    | inr only ↦ rw (only, goes_by n b e) refl
  ]

  Roles-are_targets : (c d : Text) → Roles c d → (is_target a b c ≡ true) × (is_target a b d ≡ true)
  Roles-are_targets c d (inl (x, y)) = (first_target c x, second_target d y)
  Roles-are_targets c d (inr (x, y)) = (second_target c x, first_target d y)

  module _ (manager : Text) (secret : ℕ) (h : Services) where
    abbrev everyone : List (Text × ℕ)
    everyone = entries (child manager secret h end)

    search_all-seek : (search_all manager secret a b h).targets ≡ seek a b 2 everyone
    unfolding search_all
    search_all-seek = elim (Bool-cases (is_target a b manager)) [
      | inl hit ↦ rw hit (
          ap (λ l. target a b manager secret ∷ l)
            ((search-Found a b false 1 1 h (omega arith) (omega arith) (λ e. absurd (cc))).0
              ∙ ap (seek a b 1) (sym (append-nil (entries h)))))
      | inr miss ↦ rw miss (
          (search-Found a b false 0 2 h (omega arith) (omega arith) (λ e. absurd (cc))).0
          ∙ ap (seek a b 2) (sym (append-nil (entries h))))
    ]

    exchange-swap :
        (ps : List Partner) (news : List ℕ)
        → seek a b 2 everyone ≡ ps
        → ((w : Bool) → swap a b w ps ≡ some news)
        → (r : Exchanged) × (exchange manager secret a b h ≡ some r)
          × (entries r.all ≡ (put a b news everyone).0)
    unfolding exchange
    exchange-swap ps news found e = (
      record {
        all = (acquire a b news (child manager secret h end)).0;
        received = (search_all manager secret a b h).received;
      },
      rw (search_all-seek ∙ found, e (search_all manager secret a b h).waits) refl,
      ap (λ (r : List (Text × ℕ) × List ℕ). r.0)
          (acquire-Given a b news (child manager secret h end)),
    )

    exchange_waits_on :
        (ps : List Partner)
        → seek a b 2 everyone ≡ ps
        → ((w : Bool) → swap a b w ps ≡ none)
        → exchange manager secret a b h ≡ none
    unfolding exchange
    exchange_waits_on ps found e =
        rw (search_all-seek ∙ found, e (search_all manager secret a b h).waits) refl

    module _ (c : Text) (s : ℕ) (xs ys : List (Text × ℕ)) (before : Missed a b xs) where
      -- If exactly one process has one of the two names, the command never ends.
      pub exchange_waits :
          everyone ≡ xs ++ (c, s) ∷ ys
          → is_target a b c ≡ true
          → Missed a b ys
          → exchange manager secret a b h ≡ none
      unfolding swap read_all receive receive_back
      exchange_waits all hit behind =
          let found : seek a b 2 everyone ≡ target a b c s ∷ [] =
            ap (seek a b 2) all
            ∙ seek-Missed a b 2 xs ((c, s) ∷ ys) before
            ∙ seek_hit a b 1 c s ys hit
            ∙ ap (λ l. target a b c s ∷ l)
                (ap (seek a b 1) (sym (append-nil ys)) ∙ seek-Missed a b 1 ys [] behind) in
          exchange_waits_on (target a b c s ∷ []) found (λ w. ground arith)

      -- With `c` the first process that has one of the two names and `d` the next, and the one name for
      -- `c` and the other for `d`, the command ends; the secrets of `c` and `d` are swapped, and every
      -- other is as before.
      pub exchange_swaps :
          (d : Text) (t : ℕ) (zs : List (Text × ℕ))
          → everyone ≡ xs ++ (c, s) ∷ (ys ++ (d, t) ∷ zs)
          → Missed a b ys
          → text_eq b a ≡ false
          → Roles c d
          → (r : Exchanged) × (exchange manager secret a b h ≡ some r)
            × (entries r.all ≡ xs ++ (c, t) ∷ (ys ++ (d, s) ∷ zs))
      exchange_swaps d t zs all between differ roles =
          let (hit_c, hit_d) = Roles-are_targets c d roles in
          let found : seek a b 2 everyone ≡ target a b c s ∷ target a b d t ∷ [] =
            ap (seek a b 2) all
            ∙ seek-Missed a b 2 xs ((c, s) ∷ (ys ++ (d, t) ∷ zs)) before
            ∙ seek_hit a b 1 c s (ys ++ (d, t) ∷ zs) hit_c
            ∙ ap (λ l. target a b c s ∷ l)
                (seek-Missed a b 1 ys ((d, t) ∷ zs) between ∙ seek_hit a b 0 d t zs hit_d) in
          let (r, run, after) =
            exchange-swap _ (t ∷ s ∷ []) found
              (swap-Apart c d s t (Roles-Apart c d differ roles)) in
          (
            r,
            run,
            after
                ∙ ap (λ l. (put a b (t ∷ s ∷ []) l).0) all
                ∙ put-Missed a b t (s ∷ []) xs ((c, s) ∷ (ys ++ (d, t) ∷ zs)) before
                ∙ ap (λ l. xs ++ l)
                    (put_hit a b t (s ∷ []) c s (ys ++ (d, t) ∷ zs) hit_c
                      ∙ ap (λ l. (c, t) ∷ l)
                          (put-Missed a b s [] ys ((d, t) ∷ zs) between
                            ∙ ap (λ l. ys ++ l)
                                (put_hit a b s [] d t zs hit_d
                                  ∙ ap (λ (r : List (Text × ℕ) × List ℕ). (d, s) ∷ r.0)
                                      (put_none a b zs)))),
          )
