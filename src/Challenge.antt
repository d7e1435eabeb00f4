-- ===== src/Challenge.antt =====
-- final_project/main_server.cpp: the current challenge, the handler of a submitted response, and the
-- splitting of a broadcast into packets. Sockets, threads and the clock are not modelled: the two
-- mutexes make each handler one step. Session has the reading of a response from its line, Generate
-- the making of a challenge. Prices are any type with the test of the code for two prices being close
-- enough.
pub mod Winner
pub mod Packets
pub mod Broadcast
pub mod Generate
pub mod Session
mod Examples
use advanced_cpp_p1g.Base.{
  ℕ, zero, suc, ◌+◌, ◌-◌, ◌*◌, ◌/◌, min, Bool, true, false, Option, none, some, List, [], ◌∷◌, ◌++◌,
  not, ◌&&◌, if◌then◌else◌, length, take, drop, find,
}
use advanced_cpp_p1g.Base.Text.{Bytes, same_bytes, bytes_eq}
use advanced_cpp_p1g.Base.Int.{ℤ, eqb_ℤ}

abbrev pub response_mark : Bytes
response_mark =
    b'C' ∷ b'H' ∷ b'A' ∷ b'L' ∷ b'L' ∷ b'E' ∷ b'N' ∷ b'G' ∷ b'E' ∷ b'_' ∷ b'R' ∷ b'E' ∷ b'S' ∷ b'P'
    ∷ b'O' ∷ b'N' ∷ b'S' ∷ b'E' ∷ []

pub record Challenge {ℓ} (D : Type ℓ) : Type ℓ where
  pub challenge_id : ℤ
  pub target_ticker : Bytes
  pub market_data : List (Bytes × (D × D))
  pub winner_declared : Bool
  pub winner_name : Bytes

-- What `process_order` reads from its message.
pub record Response {ℓ} (D : Type ℓ) : Type ℓ where
  pub header : Bytes
  pub challenge_id : ℤ
  pub ticker : Bytes
  pub submitted_bid : D
  pub submitted_ask : D
  pub client_name : Bytes

-- The line that answers a response: "WINNER " and the client's name, or "INCORRECT".
pub data Answer : Type 0 where
  winner : Bytes → Answer
  incorrect : Answer

module _ {ℓ} {D : Type ℓ} (close : D → D → Bool) where
  -- Both prices are those of the ticker, as far as `close` goes.
  abbrev pub prices_match : Response D → Option (D × D) → Bool
  prices_match r none = false
  prices_match r (some (bid, ask)) = close r.submitted_bid bid && close r.submitted_ask ask

  -- The nested tests before a winner is declared.
  abbrev pub accepts : Challenge D → Response D → Bool
  accepts c r =
      (eqb_ℤ c.challenge_id r.challenge_id && not c.winner_declared)
      && (same_bytes c.target_ticker r.ticker && prices_match r (find r.ticker c.market_data))

  -- The answer that is sent, if one is, and the challenge afterwards.
  unfoldable pub process_order : Challenge D → Response D → Option Answer × Challenge D
  process_order c r =
      if same_bytes r.header response_mark
      then (let correct = false in
          (
            some (if correct then winner r.client_name else incorrect),
            (if accepts c r
                then record c { winner_declared = true; winner_name = r.client_name }
                else c),
          ))
      else (none, c)

  -- The responses in the order in which the handlers get the lock.
  unfoldable pub process_all : Challenge D → List (Response D) → Challenge D
  process_all c [] = c
  process_all c (r ∷ rs) = process_all (process_order c r).1 rs

module _ {ℓ} {A : Type ℓ} where
  -- Fragment `i` of the loop: substr(i * fragment_size, min(fragment_size, total_size - start))
  abbrev pub fragment : ℕ → List A → ℕ → List A
  fragment size message i = take (min size (length message - i * size)) (drop (i * size) message)

  -- The fragments from `i` on, of which there are `n`.
  abbrev pub fragments_from : ℕ → List A → ℕ → ℕ → List (List A)
  fragments_from size message i zero = []
  fragments_from size message i (suc n) =
      fragment size message i ∷ fragments_from size message (i + 1) n

  -- What is sent for a message, packet by packet.
  unfoldable pub fragments : ℕ → List A → List (List A)
  fragments size message = fragments_from size message 0 ((length message + size - 1) / size)

-- MAX_UDP_PAYLOAD
abbrev pub max_udp_payload : ℕ
max_udp_payload = 1400
