-- ===== src/Challenge/Examples.antt =====
-- The theorems on the challenge at one challenge and two responses, with prices in ticks.
use advanced_cpp_p1g.Base.{ℕ, ◌≡◌, refl, Bool, false, List, [], ◌∷◌, ◌==◌, arith, All}
use advanced_cpp_p1g.Base.Int.{pos}
use advanced_cpp_p1g.Challenge.{Challenge, Response, response_mark, process_all, fragments}
use advanced_cpp_p1g.Challenge.Winner.{first_winner, declare, process_all-first_winner}
use advanced_cpp_p1g.Challenge.Packets.{joined, IsPacket, fragments-joined}

abbrev exact : ℕ → ℕ → Bool
exact a b = a == b

abbrev challenge : Challenge ℕ
challenge = record {
  challenge_id = pos 3;
  target_ticker = (b'A' ∷ b'C' ∷ b'M' ∷ b'E' ∷ []);
  market_data = ((b'A' ∷ b'C' ∷ b'M' ∷ b'E' ∷ []), (100, 102)) ∷ [];
  winner_declared = false;
  winner_name = [];
}

abbrev right : Response ℕ
right = record {
  header = response_mark;
  challenge_id = pos 3;
  ticker = (b'A' ∷ b'C' ∷ b'M' ∷ b'E' ∷ []);
  submitted_bid = 100;
  submitted_ask = 102;
  client_name = (b'a' ∷ b'l' ∷ b'i' ∷ b'c' ∷ b'e' ∷ []);
}

abbrev wrong : Response ℕ
wrong = record right { submitted_bid = 99 }

process_all-first_winner_example :
    process_all exact challenge (wrong ∷ right ∷ [])
    ≡ declare exact challenge (first_winner exact challenge (wrong ∷ right ∷ []))
process_all-first_winner_example =
    process_all-first_winner exact challenge (wrong ∷ right ∷ []) refl

abbrev message : List ℕ
message = 1 ∷ 2 ∷ 3 ∷ 4 ∷ 5 ∷ []

fragments-joined_example :
    (joined (fragments 2 message) ≡ message) × All (IsPacket 2) (fragments 2 message)
fragments-joined_example = fragments-joined 2 message (omega arith)
