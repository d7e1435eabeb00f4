-- ===== src/Round/Market.antt =====
-- The challenge that `generate_challenge` makes.
use advanced_cpp_p1g.Base.{
  ℕ, zero, suc, ◌+◌, ◌≤◌, ◌<◌, ◌≡◌, ◌≢◌, refl, sym, ap, subst, ◌∙◌, false, some, List, [], ◌∷◌,
  ◌++◌, length, get_elem?, get_or, assign, find, find-assign, assign-All, append-nil, append_assoc,
  arith, All, Bool-cases, inl, inr,
}
use advanced_cpp_p1g.Base.Text.{Bytes, same_bytes, same_bytes_iff, bytes_eq}
use advanced_cpp_p1g.Base.Int.{ℤ, pos, ◌+ℤ◌}
use advanced_cpp_p1g.Challenge.{Challenge}
use advanced_cpp_p1g.Challenge.Generate.{ticker_of, Generated, generate_from, generate_challenge}
use advanced_cpp_p1g.Challenge.Session.{is_space}
use advanced_cpp_p1g.ChallengeClient.Answer.{IsTicker}

-- A ticker that can stand in a message and, as a word, in a response.
abbrev pub IsName : Bytes → Type 0
IsName t = IsTicker t × All (λ c. is_space c ≡ false) t

pub ticker_of-IsName : (i : ℕ) → IsName (ticker_of i)
unfolding ticker_of
ticker_of-IsName i = ground arith

pub ticker_of_injective : (i j : ℕ) → i < 10000 → j < 10000 → ticker_of i ≡ ticker_of j → i ≡ j
unfolding ticker_of
ticker_of_injective i j h k e =
    let digit : (n : ℕ) → get_or (ticker_of i) n 0 ≡ get_or (ticker_of j) n 0 =
      λ n. ap (λ t. get_or t n 0) e in
    omega (arith, digit 3, digit 4, digit 5, digit 6)

-- The tickers of `n` turns from `i` on.
abbrev tickers_from : ℕ → ℕ → List Bytes
tickers_from i zero = []
tickers_from i (suc n) = ticker_of i ∷ tickers_from (suc i) n

get_elem?-tickers_from :
    (i n k : ℕ) → k < n → get_elem? (tickers_from i n) k ≡ some (ticker_of (i + k))
get_elem?-tickers_from i zero k h = absurd (omega arith)
get_elem?-tickers_from i (suc n) zero h =
    let e : i ≡ i + 0 = omega arith in ap (λ j. some (ticker_of j)) e
get_elem?-tickers_from i (suc n) (suc k) h =
    let e : suc i + k ≡ i + suc k = omega arith in
    get_elem?-tickers_from (suc i) n k (omega arith) ∙ ap (λ j. some (ticker_of j)) e

module _ {ℓ} {D : Type ℓ} where
  length-assign :
      (k : Bytes) (v : D × D) (m : List (Bytes × (D × D))) → length (assign k v m) ≤ suc (length m)
  unfolding assign
  length-assign k v [] = omega arith
  length-assign k v ((j, w) ∷ m) = ground (arith, length-assign k v m)

  find-assign_self :
      (k : Bytes) (v : D × D) (m : List (Bytes × (D × D))) → find k (assign k v m) ≡ some v
  find-assign_self k v m = find-assign k k v m ∙ rw ((same_bytes_iff k k).1 refl) refl

  find-assign_other :
      (k j : Bytes) (v : D × D) (m : List (Bytes × (D × D)))
      → k ≢ j
      → find j (assign k v m) ≡ find j m
  find-assign_other k j v m h = elim (Bool-cases (same_bytes k j)) [
    | inl g ↦ absurd (h ((same_bytes_iff k j).0 g))
    | inr g ↦ find-assign k j v m ∙ rw g refl
  ]

module _ {ℓ} {D : Type ℓ} (add : D → D → D) where
  -- The market and the tickers after a turn of the loop.
  abbrev after_draw : ℕ → Generated D → D → D → Generated D
  after_draw i g bid inc = record {
    market = assign (ticker_of i) (bid, add bid inc) g.market;
    available = g.available ++ (ticker_of i ∷ []);
  }

  length-generate_from :
      (i : ℕ) (g : Generated D) (draws : List (D × D))
      → length (generate_from add i g draws).market ≤ length g.market + length draws
  unfolding generate_from
  length-generate_from i g [] = omega arith
  length-generate_from i g ((bid, inc) ∷ draws) = omega (
    arith,
    length-generate_from (suc i) (after_draw i g bid inc) draws,
    length-assign (ticker_of i) (bid, add bid inc) g.market,
  )

  generate_from-All :
      (i : ℕ) (g : Generated D) (draws : List (D × D))
      → All (λ e. IsName e.0) g.market
      → All (λ e. IsName e.0) (generate_from add i g draws).market
  unfolding generate_from
  generate_from-All i g [] h = h
  generate_from-All i g ((bid, inc) ∷ draws) h =
      generate_from-All (suc i) (after_draw i g bid inc) draws
        (assign-All IsName (ticker_of i) (bid, add bid inc) g.market (ticker_of-IsName i) h)

  available-generate_from :
      (i : ℕ) (g : Generated D) (draws : List (D × D))
      → (generate_from add i g draws).available ≡ g.available ++ tickers_from i (length draws)
  unfolding generate_from
  available-generate_from i g [] = sym (append-nil g.available)
  available-generate_from i g ((bid, inc) ∷ draws) =
      available-generate_from (suc i) (after_draw i g bid inc) draws
      ∙ append_assoc g.available (ticker_of i ∷ []) (tickers_from (suc i) (length draws))

  find-generate_from_old :
      (i j : ℕ) (g : Generated D) (draws : List (D × D))
      → j < i
      → i + length draws ≤ 10000
      → find (ticker_of j) (generate_from add i g draws).market ≡ find (ticker_of j) g.market
  unfolding generate_from
  find-generate_from_old i j g [] h k = refl
  find-generate_from_old i j g ((bid, inc) ∷ draws) h k =
      find-generate_from_old (suc i) j (after_draw i g bid inc) draws (omega arith) (omega arith)
      ∙ find-assign_other (ticker_of i) (ticker_of j) (bid, add bid inc) g.market
          (λ e. omega (arith, ticker_of_injective i j (omega arith) (omega arith) e, h))

  find-generate_from :
      (i k : ℕ) (g : Generated D) (draws : List (D × D)) (bid inc : D)
      → i + length draws ≤ 10000
      → get_elem? draws k ≡ some (bid, inc)
      → find (ticker_of (i + k)) (generate_from add i g draws).market ≡ some (bid, add bid inc)
  unfolding generate_from
  find-generate_from i k g [] bid inc h e = cc
  find-generate_from i zero g ((b, n) ∷ draws) bid inc h e =
      let p : i + 0 ≡ i = omega arith in
      rw p (
        find-generate_from_old (suc i) i (after_draw i g b n) draws (omega arith) (omega arith)
        ∙ find-assign_self (ticker_of i) (b, add b n) g.market
        ∙ cc)
  find-generate_from i (suc k) g ((b, n) ∷ draws) bid inc h e =
      let p : i + suc k ≡ suc i + k = omega arith in
      rw p (find-generate_from (suc i) k (after_draw i g b n) draws bid inc (omega arith) e)

  length-get_elem? :
      (xs : List (D × D)) (k : ℕ) {x : D × D} → get_elem? xs k ≡ some x → k < length xs
  length-get_elem? [] k e = cc
  length-get_elem? (x ∷ xs) zero e = omega arith
  length-get_elem? (x ∷ xs) (suc k) e = omega (arith, length-get_elem? xs k e)

  -- From at most 9999 draws, of which the one at `index` is a bid and an increment, the server makes
  -- a challenge with the next id and without a winner. Its target is ticker `index + 1`, whose prices
  -- on the market are that bid and the bid with the increment added; there are no more entries than
  -- draws, and every ticker has seven bytes, with no colon, space or end of a line.
  pub generate_challenge-prices :
      (last_id : ℤ) (draws : List (D × D)) (index : ℕ) (bid inc : D)
      → length draws < 10000
      → get_elem? draws index ≡ some (bid, inc)
      → (c : Challenge D) × (generate_challenge add last_id draws index ≡ some c)
        × (c.challenge_id ≡ last_id +ℤ pos 1)
        × (c.winner_declared ≡ false)
        × (c.target_ticker ≡ ticker_of (index + 1))
        × (find c.target_ticker c.market_data ≡ some (bid, add bid inc))
        × (length c.market_data ≤ length draws)
        × All (λ e. IsName e.0) c.market_data
  unfolding generate_challenge
  generate_challenge-prices last_id draws index bid inc few drawn =
      let empty : Generated D = record { market = []; available = [] } in
      let all = generate_from add 1 empty draws in
      let target : get_elem? all.available index ≡ some (ticker_of (index + 1)) =
        rw (available-generate_from 1 empty draws) (
          get_elem?-tickers_from 1 (length draws) index (length-get_elem? draws index drawn)
          ∙ ap (λ j. some (ticker_of j)) (omega arith)) in
      let price = find-generate_from 1 index empty draws bid inc (omega arith) drawn in
      (
        record {
          challenge_id = last_id +ℤ pos 1;
          target_ticker = ticker_of (index + 1);
          market_data = all.market;
          winner_declared = false;
          winner_name = [];
        },
        rw target refl,
        refl,
        refl,
        refl,
        subst (λ j. find (ticker_of j) all.market ≡ some (bid, add bid inc)) (omega arith) price,
        omega (arith, length-generate_from 1 empty draws),
        generate_from-All 1 empty draws tt,
      )
