-- ===== src/Challenge/Generate.antt =====
-- final_project/main_server.cpp: `generate_challenge`. The prices that are drawn, and the place of the
-- target among the tickers, are the input; the addition of doubles is a parameter.
use advanced_cpp_p1g.Base.{
  ℕ, suc, ◌+◌, ◌/◌, ◌%◌, Option, some, List, [], ◌∷◌, ◌++◌, false, get_elem?, assign,
}
use advanced_cpp_p1g.Base.Text.{Bytes, bytes_eq}
use advanced_cpp_p1g.Base.Fault.{◌>>=◌}
use advanced_cpp_p1g.Base.Int.{ℤ, pos, ◌+ℤ◌}
use advanced_cpp_p1g.Challenge.{Challenge}

-- std::snprintf(ticker, sizeof(ticker), "SEC%04d", i), for a number of at most four digits
unfoldable pub ticker_of : ℕ → Bytes
ticker_of i =
    b'S'
    ∷ b'E'
    ∷ b'C'
    ∷ (b'0' + i / 1000 % 10)
    ∷ (b'0' + i / 100 % 10)
    ∷ (b'0' + i / 10 % 10)
    ∷ (b'0' + i % 10)
    ∷ []

-- newChallenge.market_data and available_tickers
pub record Generated {ℓ} (D : Type ℓ) : Type ℓ where
  pub market : List (Bytes × (D × D))
  pub available : List Bytes

module _ {ℓ} {D : Type ℓ} (add : D → D → D) where
  -- The loop from `i` on, with a bid and an increment for each turn.
  unfoldable pub generate_from : ℕ → Generated D → List (D × D) → Generated D
  generate_from i g [] = g
  generate_from i g ((bid, inc) ∷ draws) =
      generate_from (suc i)
        (record {
          market = assign (ticker_of i) (bid, add bid inc) g.market;
          available = g.available ++ (ticker_of i ∷ []);
        })
        draws

  -- `global_challenge_id` goes in, and comes out as the challenge's id. `none`: the index is not
  -- that of a ticker.
  unfoldable pub generate_challenge : ℤ → List (D × D) → ℕ → Option (Challenge D)
  generate_challenge global_challenge_id draws index = do
    let g = generate_from 1 (record { market = []; available = [] }) draws
    target ← get_elem? g.available index
    some (record {
      challenge_id = global_challenge_id +ℤ pos 1;
      target_ticker = target;
      market_data = g.market;
      winner_declared = false;
      winner_name = [];
    })
