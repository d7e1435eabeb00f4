-- ===== src/Challenge/Broadcast.antt =====
-- final_project/main_server.cpp: the message that is broadcast for a challenge, as bytes. How a double
-- and an int are printed are parameters; the securities are given in the order of the iteration
-- over `market_data`.
use advanced_cpp_p1g.Base.{List, [], ◌∷◌, ◌++◌}
use advanced_cpp_p1g.Base.Text.{Bytes}
use advanced_cpp_p1g.Base.Int.{ℤ}

pub record Security {ℓ} (D : Type ℓ) : Type ℓ where
  pub ticker : Bytes
  pub bid : D
  pub ask : D

module _ {ℓ} {D : Type ℓ} (show : D → Bytes) where
  -- "SEC|" << ticker << "|BID|" << bid << "|ASK|" << ask, without the end of the line
  abbrev pub security_line : Security D → Bytes
  security_line s =
      b'S'
      ∷ b'E'
      ∷ b'C'
      ∷ b'|'
      ∷ (s.ticker
          ++ (b'|'
              ∷ b'B'
              ∷ b'I'
              ∷ b'D'
              ∷ b'|'
              ∷ (show s.bid ++ (b'|' ∷ b'A' ∷ b'S' ∷ b'K' ∷ b'|' ∷ show s.ask))))

  -- The lines of the securities, with what follows them.
  abbrev pub security_lines : List (Security D) → Bytes → Bytes
  security_lines [] rest = rest
  security_lines (s ∷ ss) rest = security_line s ++ (b'\n' ∷ security_lines ss rest)

  -- msg_stream.str()
  unfoldable pub challenge_message : (ℤ → Bytes) → List (Security D) → ℤ → Bytes → Bytes
  challenge_message show_id securities id target = security_lines securities (
      (b'C'
        ∷ b'H'
        ∷ b'A'
        ∷ b'L'
        ∷ b'L'
        ∷ b'E'
        ∷ b'N'
        ∷ b'G'
        ∷ b'E'
        ∷ b'_'
        ∷ b'I'
        ∷ b'D'
        ∷ b':'
        ∷ show_id id)
      ++ (b'\n' ∷ ((b'T' ∷ b'A' ∷ b'R' ∷ b'G' ∷ b'E' ∷ b'T' ∷ b':' ∷ target) ++ (b'\n' ∷ []))))

-- The pair that the loop over `market_data` binds.
abbrev pub security_of {ℓ} : {D : Type ℓ} → Bytes × (D × D) → Security D
security_of (ticker, (bid, ask)) = record { ticker = ticker; bid = bid; ask = ask }
