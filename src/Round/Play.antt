-- ===== src/Round/Play.antt =====
-- A round of the challenge between the server and one client that alone answers: every packet is
-- received, in order, and every line that the client sends reaches the server. The numbers that
-- std::istringstream did not write to are stale.
use advanced_cpp_p1g.Base.{Bool, Option, some, List, [], ◌∷◌, ◌++◌, map, ◌≡◌, length, All, find}
use advanced_cpp_p1g.Base.Text.{Bytes, bytes_eq}
use advanced_cpp_p1g.Base.Int.{ℤ}
use advanced_cpp_p1g.Base.Fault.{◌>>=◌}
use advanced_cpp_p1g.Challenge.{Challenge, Answer}
use advanced_cpp_p1g.Challenge.Broadcast.{security_of, challenge_message}
use advanced_cpp_p1g.Challenge.Session.{line_of, handle_line}
use advanced_cpp_p1g.ChallengeClient.{Decimal, Memory, Response, answer}
use advanced_cpp_p1g.ChallengeClient.Scan.{value_of}
use advanced_cpp_p1g.ChallengeClient.Reply.{response_line, sent_of}

module _ {ℓ} {D : Type ℓ} (show : D → Bytes) (show_id : ℤ → Bytes) where
  -- The message for a challenge, with the entries in the order in which the loop visits them.
  abbrev pub message_of : Challenge D → List (Bytes × (D × D)) → Bytes
  message_of c visited =
      challenge_message show show_id (map security_of visited) c.challenge_id c.target_ticker

-- The client's response to a challenge whose target has these prices.
abbrev pub reply_to {ℓ} :
    {D : Type ℓ} ⦃d : Decimal D⦄ → (D → Bytes × Option Bytes) → Challenge D → D → D → Response D
reply_to parts c bid ask = record {
  challenge_id = c.challenge_id;
  target = c.target_ticker;
  bid = value_of (parts bid);
  ask = value_of (parts ask);
}

module _ {ℓ} {D : Type ℓ} ⦃d : Decimal D⦄ (atoi : Bytes → ℤ) (show_id : ℤ → Bytes)
    (show_six : D → Bytes) (trader : Bytes) (get_id : ℤ → Bytes → ℤ × Option Bytes)
    (get_price : D → Bytes → D × Option Bytes) (stale_id : ℤ) (stale_price : D)
    (close : D → D → Bool) where
  -- The server's answers to the client's lines for these packets, and the challenge afterwards.
  unfoldable pub play :
      Memory → List Bytes → Challenge D → Option (List (Option Answer) × Challenge D)
  play m [] c = some ([], c)
  play m (packet ∷ packets) c = do
    (m₁, r) ← answer {D = D} atoi m packet
    sent ← sent_of (response_line show_id show_six trader r ++ (b'\n' ∷ []))
    line ← line_of sent
    let (told, c₁) = handle_line get_id get_price stale_id stale_price close c line
    (rest, c₂) ← play m₁ packets c₁
    some (told ∷ rest, c₂)

-- What the loop over a hash map visits: each entry once, in some order.
pub record Visits {ℓ} {V : Type ℓ} (market visited : List (Bytes × V)) : Type ℓ where
  pub same_entries : (ticker : Bytes) → find ticker visited ≡ find ticker market
  pub as_many : length visited ≡ length market
  pub entries_of_it : All (λ e. find e.0 market ≡ some e.1) visited
