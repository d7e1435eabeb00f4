-- ===== src/Exchange/Logger.antt =====
-- Phase_4/include/TradeLogger.hpp and Phase_4/src/TradeLogger.cpp. A file is the list of its lines,
-- and a line its fields: how numbers are printed is not modelled.
use advanced_cpp_p1g.Base.{
  ℕ, ◌≡◌, refl, ◌∙◌, ap, Bool, true, false, List, [], ◌∷◌, ◌++◌, if◌then◌else◌, map, append_assoc,
  append-nil, sym,
}
use advanced_cpp_p1g.Base.Int.{ℤ}
use advanced_cpp_p1g.Exchange.Matching.{Trade}

pub data Line {ℓ} (P : Type ℓ) : Type ℓ where
  heading : Line P
  row : ℕ → ℕ → P → ℤ → Line P

pub record TradeLogger {ℓ} (P : Type ℓ) : Type ℓ where
  pub trades : List (Trade P)

module _ {ℓ} {P : Type ℓ} where
  -- The constructor; the reserved size changes nothing that is seen.
  abbrev pub empty_log : TradeLogger P
  empty_log = record { trades = [] }

  unfoldable pub log_trade : TradeLogger P → Trade P → TradeLogger P
  log_trade l trade = record { trades = l.trades ++ (trade ∷ []) }

  abbrev pub trade_row : Trade P → Line P
  trade_row t = row t.buy_order_id t.sell_order_id t.price t.quantity

  -- The file afterwards: it is written anew if it opens.
  unfoldable pub flush_to_file : TradeLogger P → Bool → List (Line P) → List (Line P)
  flush_to_file l is_open file = if is_open then heading ∷ map trade_row l.trades else file

  -- for (trade : trades) logger.log_trade(trade);
  abbrev pub log_all : TradeLogger P → List (Trade P) → TradeLogger P
  log_all l [] = l
  log_all l (t ∷ ts) = log_all (log_trade l t) ts

  -- The trades that the lines of a file tell of.
  abbrev pub read_back : List (Line P) → List (Trade P)
  read_back [] = []
  read_back (heading ∷ lines) = read_back lines
  read_back (row buy sell price quantity ∷ lines) =
      record { buy_order_id = buy; sell_order_id = sell; price = price; quantity = quantity }
      ∷ read_back lines

  log_all-trades :
      (l : TradeLogger P) (ts : List (Trade P)) → (log_all l ts).trades ≡ l.trades ++ ts
  unfolding log_trade
  log_all-trades l [] = sym (append-nil l.trades)
  log_all-trades l (t ∷ ts) = log_all-trades (log_trade l t) ts ∙ append_assoc l.trades (t ∷ []) ts

  read_back-rows : (ts : List (Trade P)) → read_back (map trade_row ts) ≡ ts
  read_back-rows [] = refl
  read_back-rows (t ∷ ts) = ap (λ us. t ∷ us) (read_back-rows ts)

  -- A file that opens holds, after the flush, exactly the trades that were logged, those of before
  -- and the new ones, in order; a file that does not open is left as it was.
  pub read_back-flush_to_file :
      (l : TradeLogger P) (ts : List (Trade P)) (file : List (Line P))
      → (read_back (flush_to_file (log_all l ts) true file) ≡ l.trades ++ ts)
        × (flush_to_file (log_all l ts) false file ≡ file)
  unfolding flush_to_file
  read_back-flush_to_file l ts file =
      (read_back-rows (log_all l ts).trades ∙ log_all-trades l ts, refl)
