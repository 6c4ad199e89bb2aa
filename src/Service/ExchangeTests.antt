-- ===== src/Service/ExchangeTests.antt =====
-- The command "exchange" on concrete trees.
use system_design.Base.{arith, ◌>>=◌, ◌≡◌, refl, inr, [], ◌∷◌, some, none, codes, text_eq}
use system_design.Service.Exchange.{
  Services, end, child, search, acquire, receive, receive_back, read_all, swap, search_all,
  Exchanged, exchange,
}
use system_design.Service.Words.{line}
use system_design.Service.Asking.{obey_exchange}
use system_design.Service.Trading.{exchange_words}
use system_design.Service.Dealing.{traded, obey_exchange-exchange}
use system_design.Service.Seeking.{entries}
use system_design.Service.Swapping.{exchange_waits, exchange_swaps}

-- Manager M with the secret 1 has the children A and D; A has the children B and C.
abbrev below : Services
below =
    child (codes "A") 2 (child (codes "B") 3 end (child (codes "C") 4 end end))
      (child (codes "D") 5 end end)

exchange_c_d :
    exchange (codes "M") 1 (codes "C") (codes "D") below
    ≡ some (record {
      all =
          child
            (codes "M")
            1
            (child
              (codes "A")
              2
              (child (codes "B") 3 end (child (codes "C") 5 end end))
              (child (codes "D") 4 end end))
            end;
      received = codes "M" ∷ codes "A" ∷ codes "B" ∷ codes "C" ∷ codes "D" ∷ [];
    })
unfolding exchange search_all search acquire swap read_all receive receive_back text_eq
exchange_c_d = refl

exchange_swaps_example :
    (r : Exchanged) × (exchange (codes "M") 1 (codes "D") (codes "A") below ≡ some r)
    × (entries r.all
        ≡ (codes "M", 1) ∷ (codes "A", 5) ∷ (codes "B", 3) ∷ (codes "C", 4) ∷ (codes "D", 2) ∷ [])
unfolding text_eq
exchange_swaps_example =
    exchange_swaps (codes "D") (codes "A") (codes "M") 1 below (codes "A") 2 ((codes "M", 1) ∷ [])
      ((codes "B", 3) ∷ (codes "C", 4) ∷ []) (refl, tt) (codes "D") 5 [] refl (refl, (refl, tt))
      refl (inr (refl, refl))

exchange_waits_example : exchange (codes "M") 1 (codes "C") (codes "E") below ≡ none
unfolding text_eq
exchange_waits_example =
    exchange_waits (codes "C") (codes "E") (codes "M") 1 below (codes "C") 4
      ((codes "M", 1) ∷ (codes "A", 2) ∷ (codes "B", 3) ∷ []) ((codes "D", 5) ∷ [])
      (refl, (refl, (refl, tt))) refl refl (refl, tt)

-- Two names that no process has.
exchange_e_f :
    exchange (codes "M") 1 (codes "E") (codes "F") below
    ≡ some (record {
      all = child (codes "M") 1 below end;
      received = codes "M" ∷ codes "A" ∷ codes "B" ∷ codes "C" ∷ codes "D" ∷ [];
    })
unfolding exchange search_all search acquire swap read_all receive receive_back text_eq
exchange_e_f = refl

-- Two services with one name, which is both names of the command, swap their secrets.
abbrev twins : Services
twins = child (codes "A") 7 (child (codes "A") 8 end end) end

exchange_a_a :
    exchange (codes "M") 5 (codes "A") (codes "A") twins
    ≡ some (record {
      all = child (codes "M") 5 (child (codes "A") 8 (child (codes "A") 7 end end) end) end;
      received = codes "M" ∷ codes "A" ∷ codes "A" ∷ [];
    })
unfolding exchange search_all search acquire swap read_all receive receive_back text_eq
exchange_a_a = refl

abbrev pair : Services
pair = child (codes "A") 7 (child (codes "B") 8 end end) end

obey_exchange-exchange_example :
    obey_exchange (codes "M") 5 (line (exchange_words (codes "B") (codes "M"))) pair ≡ (do
      r ← exchange (codes "M") 5 (codes "B") (codes "M") pair
      some (traded (codes "B") (codes "M") refl refl (omega arith) (omega arith) r))
obey_exchange-exchange_example =
    obey_exchange-exchange (codes "B") (codes "M") refl refl (omega arith) (omega arith) (codes "M")
      5 pair (omega arith, (omega arith, (omega arith, tt, tt), tt), tt)
