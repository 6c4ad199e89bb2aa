-- ===== src/Service/Acquiring.antt =====
-- The new secrets of the command "exchange", on the processes in their order (HierarchicalServiceManagementSystem/service.c).
use system_design.Base.{
  ℕ, ◌≡◌, refl, ap, sym, ◌∙◌, inl, inr, Bool-cases, true, false, List, [], ◌∷◌, ◌++◌, if◌then◌else◌,
  Text, All,
}
use system_design.Service.Exchange.{Services, end, child, is_target, acquire}
use system_design.Service.Seeking.{entries, seek, seek_miss}

module _ (a b : Text) where
  -- The new secrets given out along a list.
  abbrev pub put : List ℕ → List (Text × ℕ) → List (Text × ℕ) × List ℕ
  put news [] = ([], news)
  put [] (e ∷ es) = (e ∷ es, [])
  put (x ∷ news) ((n, s) ∷ es) =
      let taken = put news es in
      let passed = put (x ∷ news) es in
      if is_target a b n then ((n, x) ∷ taken.0, taken.1) else ((n, s) ∷ passed.0, passed.1)

  pub put_none : (es : List (Text × ℕ)) → put [] es ≡ (es, [])
  put_none [] = refl
  put_none (e ∷ es) = refl

  put-append :
      (news : List ℕ) (xs ys : List (Text × ℕ))
      → put news (xs ++ ys)
        ≡ ((put news xs).0 ++ (put (put news xs).1 ys).0, (put (put news xs).1 ys).1)
  put-append news [] ys = refl
  put-append [] (e ∷ xs) ys =
      ap (λ (r : List (Text × ℕ) × List ℕ). (e ∷ xs ++ r.0, r.1)) (sym (put_none ys))
  put-append (x ∷ news) ((n, s) ∷ xs) ys = elim (Bool-cases (is_target a b n)) [
    | inl hit ↦
        rw hit (ap (λ (r : List (Text × ℕ) × List ℕ). ((n, x) ∷ r.0, r.1)) (put-append news xs ys))
    | inr miss ↦
        rw miss
          (ap (λ (r : List (Text × ℕ) × List ℕ). ((n, s) ∷ r.0, r.1)) (put-append (x ∷ news) xs ys))
  ]

  abbrev pub Given : List ℕ → Services → Type 0
  Given news t = (entries (acquire a b news t).0, (acquire a b news t).1) ≡ put news (entries t)

  -- A list and what stands behind it.
  Given-append :
      (news : List ℕ) (h next : Services)
      → Given news h
      → ((left : List ℕ) → Given left next)
      → (
        entries (acquire a b news h).0 ++ entries (acquire a b (acquire a b news h).1 next).0,
        (acquire a b (acquire a b news h).1 next).1,
      )
        ≡ put news (entries h ++ entries next)
  Given-append news h next below behind =
      let es = entries next in
      ap (λ (r : List (Text × ℕ) × List ℕ). (entries (acquire a b news h).0 ++ r.0, r.1))
        (behind (acquire a b news h).1)
      ∙ ap (λ (r : List (Text × ℕ) × List ℕ). (r.0 ++ (put r.1 es).0, (put r.1 es).1)) below
      ∙ sym (put-append news (entries h) es)

  pub acquire-Given : (news : List ℕ) (t : Services) → Given news t
  unfolding acquire
  acquire-Given news end = refl
  acquire-Given [] (child n s h next) = refl
  acquire-Given (x ∷ news) (child n s h next) = elim (Bool-cases (is_target a b n)) [
    | inl hit ↦ rw hit (
        ap (λ (r : List (Text × ℕ) × List ℕ). ((n, x) ∷ r.0, r.1))
          (Given-append news h next (acquire-Given news h) (λ left. acquire-Given left next)))
    | inr miss ↦ rw miss (
        ap (λ (r : List (Text × ℕ) × List ℕ). ((n, s) ∷ r.0, r.1))
          (Given-append (x ∷ news) h next (acquire-Given (x ∷ news) h)
            (λ left. acquire-Given left next)))
  ]

  -- No name of the list is one of the two.
  abbrev pub Missed : List (Text × ℕ) → Type 0
  Missed = All (λ e. is_target a b e.0 ≡ false)

  pub seek-Missed :
      (k : ℕ) (xs ys : List (Text × ℕ)) → Missed xs → seek a b k (xs ++ ys) ≡ seek a b k ys
  seek-Missed k [] ys m = refl
  seek-Missed k ((n, s) ∷ xs) ys m = seek_miss a b k n s (xs ++ ys) m.0 ∙ seek-Missed k xs ys m.1

  pub put-Missed :
      (x : ℕ) (news : List ℕ) (xs ys : List (Text × ℕ))
      → Missed xs
      → (put (x ∷ news) (xs ++ ys)).0 ≡ xs ++ (put (x ∷ news) ys).0
  put-Missed x news [] ys m = refl
  put-Missed x news ((n, s) ∷ xs) ys m = rw m.0 (ap (λ l. (n, s) ∷ l) (put-Missed x news xs ys m.1))

  pub put_hit :
      (x : ℕ) (news : List ℕ) (n : Text) (s : ℕ) (es : List (Text × ℕ))
      → is_target a b n ≡ true
      → (put (x ∷ news) ((n, s) ∷ es)).0 ≡ (n, x) ∷ (put news es).0
  put_hit x news n s es hit = rw hit refl
