-- ===== src/PriceClient.antt =====
-- Phase_2/hft_client.cpp: `receiveAndRespond`. The messages that `recv` returns, as lists of bytes, are
-- the input, and the orders that are sent the output. std::stoi and std::stof are parameters; `none`
-- is an exception, which nothing catches. Sockets, delays and printing are not modelled.
pub mod Trend
pub mod Unary
mod Examples
use advanced_cpp_p1g.Base.{
  ℕ, suc, Bool, true, false, Option, none, some, List, [], ◌∷◌, ◌++◌, ◌&&◌, leb, ◌==◌,
  if◌then◌else◌, length,
}
use advanced_cpp_p1g.Base.Text.{Bytes}
use advanced_cpp_p1g.Base.Int.{ℤ}

-- data.find(','), with what stands before and behind the comma.
abbrev pub before_comma : ℕ → Option (Bytes × Bytes) → Option (Bytes × Bytes)
before_comma c none = none
before_comma c (some (front, back)) = some (c ∷ front, back)

unfoldable pub split_comma : Bytes → Option (Bytes × Bytes)
split_comma [] = none
split_comma (c ∷ cs) =
    let rest = split_comma cs in if c == b',' then some ([], cs) else before_comma c rest

-- What a message holds: nothing that can be read, numbers at which a conversion throws, or a price.
pub data Message {ℓ} (F : Type ℓ) : Type ℓ where
  invalid : Message F
  thrown : Message F
  quote : ℤ → F → Message F

-- What the last three prices do.
pub data Momentum : Type 0 where
  up down flat : Momentum

-- The orders sent until the connection closed or a conversion threw, and which of the two it was.
pub record Sent : Type 0 where
  pub orders : List ℤ
  pub threw : Bool

-- Both kinds of momentum send an order, in branches of their own.
abbrev pub order_for : ℤ → Momentum → List ℤ
order_for id up = id ∷ []
order_for id down = id ∷ []
order_for id flat = []

module _ {ℓ} {F : Type ℓ} where
  abbrev pub pop_front : List F → List F
  pop_front [] = []
  pop_front (x ∷ xs) = xs

  -- The deque after the new price.
  abbrev pub push_price : List F → F → List F
  push_price history price =
      (if leb 3 (length history) then pop_front history else history) ++ (price ∷ [])

module _ {ℓ} {F : Type ℓ} (lt : F → F → Bool) where
  -- The test of `up` first, then that of `down`.
  abbrev pub momentum_of : F → F → F → Momentum
  momentum_of a b c = if lt a b && lt b c then up else if lt b a && lt c b then down else flat

  -- if (priceHistory.size() == 3)
  abbrev pub orders_at : ℤ → List F → List ℤ
  orders_at id (a ∷ b ∷ c ∷ []) = order_for id (momentum_of a b c)
  orders_at id _ = []

  -- The loop over the messages.
  unfoldable pub respond : List F → List (Message F) → Sent
  respond history [] = record { orders = []; threw = false }
  respond history (invalid ∷ ms) = respond history ms
  respond history (thrown ∷ ms) = record { orders = []; threw = true }
  respond history (quote id price ∷ ms) =
      let rest = respond (push_price history price) ms in
      record rest { orders = orders_at id (push_price history price) ++ rest.orders }

module _ {ℓ} {F : Type ℓ} (stoi : Bytes → Option ℤ) (stof : Bytes → Option F) where
  abbrev pub numbers : Option ℤ → Option F → Message F
  numbers none price = thrown
  numbers (some id) none = thrown
  numbers (some id) (some price) = quote id price

  abbrev pub parts : Option (Bytes × Bytes) → Message F
  parts none = invalid
  parts (some (front, back)) = numbers (stoi front) (stof back)

  unfoldable pub read_message : Bytes → Message F
  unfolding split_comma
  read_message data_bytes = parts (split_comma data_bytes)

  abbrev pub read_all : List Bytes → List (Message F)
  read_all [] = []
  read_all (m ∷ ms) = read_message m ∷ read_all ms

  -- `receiveAndRespond`, from the first price on.
  unfoldable pub receive_and_respond : (F → F → Bool) → List Bytes → Sent
  receive_and_respond lt messages = respond lt [] (read_all messages)
