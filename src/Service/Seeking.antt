-- ===== src/Service/Seeking.antt =====
-- The search of the command "exchange", on the processes in the order in which it reaches them
-- (HierarchicalServiceManagementSystem/service.c).
use mathlib.Core.List.{append-nil}
use system_design.Base.{
  ℕ, zero, suc, ◌+◌, ◌-◌, ◌≤◌, ◌≡◌, refl, ap, ap₂, sym, ◌∙◌, inl, inr, Bool, Bool-cases, true,
  false, List, [], ◌∷◌, ◌++◌, length, length-append, arith, if◌then◌else◌, ◌==◌, Text,
}
use system_design.Service.Exchange.{
  Services, end, child, Partner, Search, is_target, target, next_gnum, met, go_on, search,
}

-- The processes, each with its name and its secret.
abbrev pub entries : Services → List (Text × ℕ)
entries end = []
entries (child n s h next) = (n, s) ∷ entries h ++ entries next

module _ (a b : Text) where
  -- The first `k` targets of a list.
  abbrev pub seek : ℕ → List (Text × ℕ) → List Partner
  seek zero es = []
  seek (suc k) [] = []
  seek (suc k) ((n, s) ∷ es) =
      if is_target a b n then target a b n s ∷ seek k es else seek (suc k) es

  seek_none : (k : ℕ) (es : List (Text × ℕ)) → k ≡ 0 → seek k es ≡ []
  seek_none zero es e = refl
  seek_none (suc k) es e = absurd (omega arith)

  pub seek_nil : (k : ℕ) → seek k [] ≡ []
  seek_nil zero = refl
  seek_nil (suc k) = refl

  pub seek_hit :
      (k : ℕ) (n : Text) (s : ℕ) (es : List (Text × ℕ))
      → is_target a b n ≡ true
      → seek (suc k) ((n, s) ∷ es) ≡ target a b n s ∷ seek k es
  seek_hit k n s es e = ap (λ x. if x then target a b n s ∷ seek k es else seek (suc k) es) e

  pub seek_miss :
      (k : ℕ) (n : Text) (s : ℕ) (es : List (Text × ℕ))
      → is_target a b n ≡ false
      → seek k ((n, s) ∷ es) ≡ seek k es
  seek_miss zero n s es e = refl
  seek_miss (suc k) n s es e = ap (λ x. if x then target a b n s ∷ seek k es else seek (suc k) es) e

  seek-le : (k : ℕ) (es : List (Text × ℕ)) → length (seek k es) ≤ k
  seek-le zero es = omega arith
  seek-le (suc k) [] = omega arith
  seek-le (suc k) ((n, s) ∷ es) = elim (Bool-cases (is_target a b n)) [
    | inl hit ↦ omega (arith, ap length (seek_hit k n s es hit), seek-le k es)
    | inr miss ↦ omega (arith, ap length (seek_miss (suc k) n s es miss), seek-le (suc k) es)
  ]

  seek-append :
      (k k' : ℕ) (xs ys : List (Text × ℕ))
      → k ≡ length (seek k xs) + k'
      → seek k (xs ++ ys) ≡ seek k xs ++ seek k' ys
  seek-append zero k' xs ys e = sym (seek_none k' ys (omega arith))
  seek-append (suc k) k' [] ys e = let same : suc k ≡ k' = omega arith in ap (λ j. seek j ys) same
  seek-append (suc k) k' ((n, s) ∷ xs) ys e = elim (Bool-cases (is_target a b n)) [
    | inl hit ↦
        seek_hit k n s (xs ++ ys) hit
        ∙ ap (λ l. target a b n s ∷ l)
            (seek-append k k' xs ys (omega (arith, e, ap length (seek_hit k n s xs hit))))
        ∙ ap (λ l. l ++ seek k' ys) (sym (seek_hit k n s xs hit))
    | inr miss ↦
        seek_miss (suc k) n s (xs ++ ys) miss
        ∙ seek-append (suc k) k' xs ys (omega (arith, e, ap length (seek_miss (suc k) n s xs miss)))
        ∙ ap (λ l. l ++ seek k' ys) (sym (seek_miss (suc k) n s xs miss))
  ]

  -- What the loop has found when it has asked some of the processes.
  abbrev Found : ℕ → ℕ → List (Text × ℕ) → Search → Type 0
  Found g k es r = (r.targets ≡ seek k es) × (r.gnum ≡ g + length (seek k es))

  go_on-Found :
      (g k k' g' : ℕ) (reply rest : Search) (pre post : List (Text × ℕ))
      → g + k ≡ 2
      → k ≡ length (seek k pre) + k'
      → reply.targets ≡ seek k pre
      → g' ≡ g + length (seek k pre)
      → (1 ≤ k' → Found g' k' post rest)
      → Found g k (pre ++ post) (go_on g' reply rest)
  go_on-Found g k zero g' reply rest pre post two all e f more =
      let stop : (g' == 2) ≡ true = ground (arith, f) in
      let found : seek k (pre ++ post) ≡ seek k pre = seek-append k 0 pre post all ∙ append-nil _ in
      rw stop (e ∙ sym found, omega (arith, all, two, ap length found))
  go_on-Found g k (suc k') g' reply rest pre post two all e f more =
      let on : (g' == 2) ≡ false = ground (arith, f) in
      let found = seek-append k (suc k') pre post all in
      let (targets, gnum) = more (omega arith) in
      rw on (
        ap₂ ◌++◌ e targets ∙ sym found,
        omega (arith, gnum, f, ap length found, length-append (seek k pre) (seek (suc k') post)),
      )

  -- A target that is asked.
  met-Found :
      (g k : ℕ) (n : Text) (s : ℕ) (asked : Search) (es : List (Text × ℕ))
      → is_target a b n ≡ true
      → g + k ≡ 2
      → 1 ≤ k
      → (2 ≤ k → Found (g + 1) (k - 1) es asked)
      → Found g k ((n, s) ∷ es) (met a b g n s asked)
  met-Found g zero n s asked es hit two some_left below = absurd (omega arith)
  met-Found g (suc zero) n s asked es hit two some_left below =
      let last : (g + 1 == 2) ≡ true = ground arith in
      let found = seek_hit 0 n s es hit in rw last (sym found, omega (arith, ap length found, two))
  met-Found g (suc (suc k)) n s asked es hit two some_left below =
      let first : (g + 1 == 2) ≡ false = ground arith in
      let found = seek_hit (suc k) n s es hit in
      let same : suc (suc k) - 1 ≡ suc k = omega arith in
      let (targets, gnum) = below (omega arith) in
      rw first (
        ap (λ l. target a b n s ∷ l) (targets ∙ ap (λ j. seek j es) same) ∙ sym found,
        omega (arith, gnum, ap length found, ap (λ j. length (seek j es)) same),
      )

  told-gnum :
      (fixed : Bool) (g r : ℕ) → (fixed ≡ true → g ≡ 1) → g ≤ r → r ≤ 2 → next_gnum fixed g r ≡ r
  told-gnum false g r f low high = refl
  told-gnum true g r f low high = let one = f refl in ground arith

  -- One round of the loop.
  round-Found :
      (fixed : Bool) (g k : ℕ) (reply : Search) (rest : ℕ → Search) (pre post : List (Text × ℕ))
      → g + k ≡ 2
      → (fixed ≡ true → g ≡ 1)
      → Found g k pre reply
      → ((g' k' : ℕ) → g' + k' ≡ 2 → 1 ≤ k' → (fixed ≡ true → g' ≡ 1) → Found g' k' post (rest g'))
      → Found g k
          (pre ++ post)
          (go_on (next_gnum fixed g reply.gnum) reply (rest (next_gnum fixed g reply.gnum)))
  round-Found fixed g k reply rest pre post two f (targets, gnum) more =
      let low = seek-le k pre in
      let g' = next_gnum fixed g reply.gnum in
      let k' = k - length (seek k pre) in
      let same : g' ≡ g + length (seek k pre) =
        told-gnum fixed g reply.gnum f (omega (arith, gnum)) (omega (arith, gnum, low, two))
        ∙ gnum in
      go_on-Found g k k' g' reply (rest g') pre post two (omega (arith, low)) targets same
        (λ some_left.
          more g' k' (omega (arith, same, low, two)) some_left
            (λ e. omega (arith, f e, same, low, two, some_left)))

  -- The search finds the first targets that it still seeks, and counts them.
  pub search-Found :
      (fixed : Bool) (g k : ℕ) (t : Services)
      → g + k ≡ 2
      → 1 ≤ k
      → (fixed ≡ true → g ≡ 1)
      → Found g k (entries t) (search a b fixed g t)
  unfolding search
  search-Found fixed g k end two some_left f =
      (sym (seek_nil k), omega (arith, ap length (seek_nil k)))
  search-Found fixed g k (child n s h next) two some_left f =
      let more : (g' k' : ℕ)
          → g' + k' ≡ 2
          → 1 ≤ k'
          → (fixed ≡ true → g' ≡ 1)
          → Found g' k' (entries next) (search a b fixed g' next) =
        λ g' k' two some_left f. search-Found fixed g' k' next two some_left f in
      elim (Bool-cases (is_target a b n)) [
        | inl hit ↦ rw hit (
            round-Found fixed g k (met a b g n s (search a b true (g + 1) h))
              (λ g'. search a b fixed g' next) ((n, s) ∷ entries h) (entries next) two f
              (met-Found g k n s (search a b true (g + 1) h) (entries h) hit two some_left (λ m.
                search-Found true (g + 1) (k - 1) h (omega arith) (omega arith) (λ _. omega arith)))
              more)
        | inr miss ↦
            let passed = search a b false g h in
            let reply : Search = record {
              gnum = passed.gnum;
              targets = passed.targets;
              received = n ∷ passed.received;
              waits = passed.waits;
            } in
            let (targets, gnum) = search-Found false g k h two some_left (λ e. absurd (cc)) in
            let found = seek_miss k n s (entries h) miss in
            rw miss (
              round-Found fixed g k reply (λ g'. search a b fixed g' next) ((n, s) ∷ entries h)
                (entries next) two f (targets ∙ sym found, omega (arith, gnum, ap length found))
                more)
      ]
