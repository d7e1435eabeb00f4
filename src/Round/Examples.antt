-- ===== src/Round/Examples.antt =====
-- The theorems on a round at a market of two securities, with ids printed in unary and prices of one
-- digit.
use advanced_cpp_p1g.Base.{
  ℕ, zero, suc, ◌+◌, ◌-◌, ◌%◌, ◌≡◌, ◌≤◌, ◌<◌, assign, refl, Bool, true, false, Option, none, some,
  List, [], ◌∷◌, ◌++◌, ◌==◌, if◌then◌else◌, length, replicate, find, All, arith,
}
use advanced_cpp_p1g.Base.Text.{Bytes, bytes_eq}
use advanced_cpp_p1g.Base.Int.{ℤ, pos, negsuc, ◌+ℤ◌}
use advanced_cpp_p1g.Challenge as Server
use advanced_cpp_p1g.Challenge.{
  response_mark, process_all, Challenge, incorrect, max_udp_payload, fragments,
}
use advanced_cpp_p1g.Challenge.Broadcast.{challenge_message}
use advanced_cpp_p1g.Challenge.Generate.{ticker_of, generate_from, generate_challenge}
use advanced_cpp_p1g.ChallengeClient.{Memory}
use advanced_cpp_p1g.ChallengeClient.Unary.{whole, show_id, atoi, ids-IsPlain, ids_no_t, ids_back}
use advanced_cpp_p1g.ChallengeClient.Answer.{Prints, text}
use advanced_cpp_p1g.ChallengeClient.Reply.{response_line}
use advanced_cpp_p1g.Round.Words.{IsWord, Reads}
use advanced_cpp_p1g.Round.Market.{IsName, generate_challenge-prices}
use advanced_cpp_p1g.Round.Play.{message_of, reply_to, play, Visits}
use advanced_cpp_p1g.Round.Won.{play-generate_challenge}

abbrev digit_of : ℕ → Bytes
digit_of x = (b'0' + x % 10) ∷ []

abbrev parts : ℕ → Bytes × Option Bytes
parts x = (digit_of x, none)

abbrev reread : ℕ → ℕ
reread x = x % 10

digit_Prints : Prints parts show_id atoi
digit_Prints = record {
  numbers = λ x. ground arith;
  id_plain = ids-IsPlain;
  id_no_t = ids_no_t;
  id_back = ids_back;
}

-- The number of ones in front, and the rest.
abbrev ones : Bytes → ℕ × Bytes
ones [] = (0, [])
ones (c ∷ p) = let (n, rest) = ones p in if c == b'1' then (suc n, rest) else (0, c ∷ p)

abbrev read_int : Bytes → ℤ × Bytes
read_int [] = (pos 0, [])
read_int (c ∷ p) =
    if c == b'-' then (negsuc (ones p).0, (ones p).1) else (pos (ones (c ∷ p)).0, (ones (c ∷ p)).1)

abbrev get_id : ℤ → Bytes → ℤ × Option Bytes
get_id old [] = (old, none)
get_id old (c ∷ p) = ((read_int p).0, some (read_int p).1)

abbrev get_price : ℕ → Bytes → ℕ × Option Bytes
get_price old (c ∷ (e ∷ p)) = (e - b'0', some p)
get_price old p = (old, none)

ones_back : (n : ℕ) (rest : Bytes) → ones (replicate n b'1' ++ (b' ' ∷ rest)) ≡ (n, b' ' ∷ rest)
ones_back zero rest = refl
ones_back (suc n) rest = rw (ones_back n rest) refl

id_read :
    (old i : ℤ) (rest : Bytes)
    → get_id old (b' ' ∷ (show_id i ++ (b' ' ∷ rest))) ≡ (i, some (b' ' ∷ rest))
id_read old (pos zero) rest = refl
id_read old (pos (suc n)) rest = rw (ones_back n rest) refl
id_read old (negsuc n) rest = rw (ones_back n rest) refl

digit_Reads : Reads show_id digit_of reread get_id get_price
digit_Reads = record {
  id_read = id_read;
  price_read = λ old x rest. ground arith;
  price_line = λ x. ground arith;
}

abbrev alice : Bytes
alice = b'a' ∷ b'l' ∷ b'i' ∷ b'c' ∷ b'e' ∷ []

alice-IsWord : IsWord alice
alice-IsWord = ((λ e. cc), ground arith)

abbrev draws : List (ℕ × ℕ)
draws = (2, 1) ∷ (6, 2) ∷ []

abbrev tk : ℕ → Bytes
tk d = b'S' ∷ b'E' ∷ b'C' ∷ b'0' ∷ b'0' ∷ b'0' ∷ d ∷ []

abbrev made : Challenge ℕ
made = record {
  challenge_id = pos 1;
  target_ticker = tk b'2';
  market_data = (tk b'1', (2, 3)) ∷ (tk b'2', (6, 8)) ∷ [];
  winner_declared = false;
  winner_name = [];
}

abbrev add : ℕ → ℕ → ℕ
add a b = a + b

made_eq : generate_challenge add (pos 0) draws 1 ≡ some made
unfolding generate_challenge generate_from ticker_of ◌+ℤ◌ assign
made_eq = refl

made-Visits : Visits made.market_data made.market_data
unfolding find
made-Visits = record {
  same_entries = λ t. refl;
  as_many = refl;
  entries_of_it = (refl, (refl, tt));
}

fits : length (message_of (text parts) show_id made made.market_data) ≤ max_udp_payload
unfolding challenge_message
fits = omega arith

abbrev memory : Memory
memory = record { challenge_id = pos 0; target = none }

abbrev exact : ℕ → ℕ → Bool
exact a b = a == b

generate_challenge-prices_example :
    (c : Challenge ℕ) × (generate_challenge add (pos 0) draws 1 ≡ some c)
    × (c.challenge_id ≡ pos 0 +ℤ pos 1)
    × (c.winner_declared ≡ false)
    × (c.target_ticker ≡ ticker_of (1 + 1))
    × (find c.target_ticker c.market_data ≡ some (6, add 6 2))
    × (length c.market_data ≤ length draws)
    × All (λ e. IsName e.0) c.market_data
generate_challenge-prices_example =
    generate_challenge-prices add (pos 0) draws 1 6 2 (omega arith) refl

room : length (response_line show_id digit_of alice (reply_to parts made 6 8)) < 127
unfolding response_line
room = omega arith

-- Another right response.
abbrev late : Server.Response ℕ
late = record {
  header = response_mark;
  challenge_id = pos 1;
  ticker = tk b'2';
  submitted_bid = 6;
  submitted_ask = 8;
  client_name = b'b' ∷ b'o' ∷ b'b' ∷ [];
}

play-generate_challenge_example :
    (play {D = ℕ} atoi show_id digit_of alice get_id get_price
        (pos 9)
        9
        exact
        memory
        (fragments max_udp_payload (message_of (text parts) show_id made made.market_data))
        made
      ≡ some (some incorrect ∷ [], record made { winner_declared = true; winner_name = alice }))
    × (process_all exact (record made { winner_declared = true; winner_name = alice }) (late ∷ [])
        ≡ record made { winner_declared = true; winner_name = alice })
play-generate_challenge_example =
    play-generate_challenge parts show_id atoi digit_of reread get_id get_price digit_Prints
      digit_Reads alice alice-IsWord (pos 9) 9 exact add (pos 0) draws 1 6 2 made made.market_data
      memory (late ∷ []) (omega arith) refl made_eq made-Visits fits room refl refl
