-- ===== src/ChallengeClient/Examples.antt =====
-- The theorem on the challenge client at two securities, with numbers printed in unary.
use advanced_cpp_p1g.Base.Text.{Bytes}
use advanced_cpp_p1g.Base.{ℕ, ◌≡◌, ◌≢◌, ap, none, some, [], ◌∷◌, ◌++◌, get_or, arith}
use advanced_cpp_p1g.Base.Int.{pos}
use advanced_cpp_p1g.Challenge.Broadcast.{Security, challenge_message}
use advanced_cpp_p1g.ChallengeClient.Scan.{value_of}
use advanced_cpp_p1g.ChallengeClient.Unary.{whole, parts, show_id, atoi, unary-Prints}
use advanced_cpp_p1g.ChallengeClient.Answer.{text, answer-challenge_message}
use advanced_cpp_p1g.ChallengeClient.{Memory, answer, sec_mark}
use advanced_cpp_p1g.ChallengeClient.Earlier.{answer_at_once, answer_at_once-eq-answer}

abbrev first : Security ℕ
first = record { ticker = b'S' ∷ b'E' ∷ b'C' ∷ b'0' ∷ b'0' ∷ b'0' ∷ b'1' ∷ []; bid = 2; ask = 3 }

abbrev second : Security ℕ
second = record { ticker = b'S' ∷ b'E' ∷ b'C' ∷ b'0' ∷ b'0' ∷ b'0' ∷ b'2' ∷ []; bid = 4; ask = 5 }

abbrev memory : Memory
memory = record { challenge_id = pos 0; target = none }

other_ticker : first.ticker ≢ second.ticker
other_ticker e = let k : ◌≡◌ {A = ℕ} 49 50 = ap (λ b. get_or b 6 0) e in omega (arith, k)

answer-challenge_message_example :
    answer {D = ℕ} atoi memory
      (challenge_message (text parts) show_id (first ∷ second ∷ []) (pos 7) second.ticker)
    ≡ some (
      record { challenge_id = pos 7; target = some second.ticker },
      record {
        challenge_id = pos 7;
        target = second.ticker;
        bid = value_of (parts 4);
        ask = value_of (parts 5);
      },
    )
answer-challenge_message_example =
    answer-challenge_message parts show_id atoi unary-Prints memory (first ∷ []) [] second (pos 7)
      (omega arith) (omega arith) (omega arith) (other_ticker, tt)

-- A packet that breaks off within an entry.
abbrev broken : Bytes
broken = sec_mark ++ (first.ticker ++ (b'|' ∷ b'B' ∷ []))

answer_at_once-eq-answer_example :
    answer_at_once {D = ℕ} atoi memory broken ≡ answer atoi memory broken
answer_at_once-eq-answer_example = answer_at_once-eq-answer atoi memory broken
