-- ===== src/TradeEngine/Examples.antt =====
-- The theorems on the engine at one security and at a buffer of three sections of ten.
use advanced_cpp_p1g.Base.{◌+◌, ◌≤◌, ◌≡◌, ◌↔◌, refl, false, none, some, [], ◌∷◌, length, arith}
use advanced_cpp_p1g.Base.Text.{Bytes}
use advanced_cpp_p1g.TradeEngine.{TradeInterface, response_text, submit_response, answer_for}
use advanced_cpp_p1g.TradeEngine.Answers.{
  security_text, answer_for-security_text, submit_response-some,
}
use advanced_cpp_p1g.TradeEngine.Sections.{Buffer}

abbrev buffer : Buffer
buffer = record { packet_size = 10; starting_index = 0; clearables = false ∷ false ∷ false ∷ [] }

abbrev ticker : Bytes
ticker = b'S' ∷ b'E' ∷ b'C' ∷ b'0' ∷ b'0' ∷ b'0' ∷ b'5' ∷ []

abbrev bid : Bytes
bid = b'6' ∷ b'4' ∷ b'.' ∷ b'6' ∷ b'4' ∷ b'2' ∷ []

abbrev ask : Bytes
ask = b'6' ∷ b'5' ∷ b'.' ∷ b'0' ∷ b'6' ∷ b'9' ∷ b'3' ∷ []

abbrev trader : TradeInterface
trader = record {
  header =
      b'C' ∷ b'H' ∷ b'A' ∷ b'L' ∷ b'L' ∷ b'E' ∷ b'N' ∷ b'G' ∷ b'E' ∷ b'_' ∷ b'R' ∷ b'E' ∷ b'S'
      ∷ b'P' ∷ b'O' ∷ b'N' ∷ b'S' ∷ b'E' ∷ [];
  challenge_id = b'4' ∷ b'2' ∷ [];
  ticker = ticker;
  client_name = b'G' ∷ b'r' ∷ b'o' ∷ b'u' ∷ b'p' ∷ b'5' ∷ [];
}

answer_for-security_text_example :
    answer_for trader ([] ∷ [] ∷ [] ∷ []) (security_text ticker bid ask) ≡ none
answer_for-security_text_example =
    answer_for-security_text trader ([] ∷ [] ∷ [] ∷ []) ticker bid ask refl refl (omega arith)
      (omega arith)

submit_response-some_example :
    (submit_response trader bid ask ≡ some (response_text trader bid ask))
    ↔ (length trader.challenge_id + length bid + length ask ≤ 18)
submit_response-some_example = submit_response-some trader bid ask refl refl refl
