-- ===== src/PriceHits.antt =====
-- Phase_2/hft_server.cpp: the prices that the server sent, and the orders by which clients hit them.
-- The locks make each turn of the two loops one step. Price ids count from 0; an order is the number
-- that atoi reads from a message. Sockets are not modelled; times are of any type.
pub mod FirstHit
pub mod Clients
pub mod Sent
pub mod Closed
pub mod Answered
pub mod Followed
mod Examples
use advanced_cpp_p1g.Base.{
  ℕ, ◌+◌, Bool, true, false, Option, none, some, List, [], ◌∷◌, if◌then◌else◌, find, assign, nat_eq,
  ◌==◌, ◌||◌,
}
use advanced_cpp_p1g.Base.Text.{Bytes}
use advanced_cpp_p1g.Base.Int.{ℤ, pos, negsuc}

pub record Hit : Type 0 where
  pub client : Bytes
  pub id : ℕ

-- The shared variables, and the hits that the server reports, the last one first.
pub record Server {ℓ} (Time : Type ℓ) : Type ℓ where
  pub price_id : ℕ
  pub price_timestamps : List (ℕ × Time)
  pub price_already_hit : List ℕ
  pub reported : List Hit

pub data Event {ℓ} (Time : Type ℓ) : Type ℓ where
  broadcast : Time → Event Time
  order : Bytes → ℤ → Event Time

abbrev pub contains : List ℕ → ℕ → Bool
contains [] id = false
contains (x ∷ xs) id = (x == id) || contains xs id

module _ {ℓ} {Time : Type ℓ} where
  abbrev pub no_prices : Server Time
  no_prices = record { price_id = 0; price_timestamps = []; price_already_hit = []; reported = [] }

  -- A turn of the loop in `broadcastPrices`.
  unfoldable pub broadcast_price : Server Time → Time → Server Time
  broadcast_price s now = record s {
    price_id = s.price_id + 1;
    price_timestamps = assign s.price_id now s.price_timestamps;
  }

  -- The part of `handleClient` under the lock. No price has a negative id.
  unfoldable pub handle_known : Server Time → Bytes → ℕ → Server Time
  handle_known s client id =
      if contains s.price_already_hit id then s else (elim (find id s.price_timestamps) [
        | none ↦ s
        | some sent ↦ record s {
          price_already_hit = id ∷ s.price_already_hit;
          reported = record { client = client; id = id } ∷ s.reported;
        }
      ])

  unfoldable pub handle_event : Server Time → Event Time → Server Time
  handle_event s (broadcast now) = broadcast_price s now
  handle_event s (order client (pos id)) = handle_known s client id
  handle_event s (order client (negsuc n)) = s

  unfoldable pub serve : Server Time → List (Event Time) → Server Time
  serve s [] = s
  serve s (e ∷ events) = serve (handle_event s e) events
