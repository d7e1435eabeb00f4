-- ===== src/Challenge/Session.antt =====
-- final_project/main_server.cpp: `TCPSession` from the bytes of a line on. `operator>>` of a number is
-- a parameter: it takes the value that the variable has and the text, and gives the value that the
-- variable has afterwards and the rest of the text, if it did not fail.
use advanced_cpp_p1g.Base.{
  ℕ, Bool, Option, none, some, [], ◌∷◌, ◌||◌, leb, ◌&&◌, ◌==◌, if◌then◌else◌,
}
use advanced_cpp_p1g.Base.Text.{Bytes}
use advanced_cpp_p1g.Base.Fault.{◌>>=◌}
use advanced_cpp_p1g.Base.Int.{ℤ}
use advanced_cpp_p1g.Challenge.{Challenge, Response, Answer, process_order}

-- std::isspace: a space, or one of \t \n \v \f \r
abbrev pub is_space : ℕ → Bool
is_space c = (c == b' ') || (leb 9 c && leb c 13)

abbrev pub skip_spaces : Bytes → Bytes
skip_spaces [] = []
skip_spaces (c ∷ p) = if is_space c then skip_spaces p else c ∷ p

-- The bytes up to the next space, and the rest.
abbrev pub word_of : Bytes → Bytes × Bytes
word_of [] = ([], [])
word_of (c ∷ p) = let (w, rest) = word_of p in if is_space c then ([], c ∷ p) else (c ∷ w, rest)

-- operator>> of a std::string
abbrev pub get_text : Bytes → Bytes → Bytes × Option Bytes
get_text old [] = (old, none)
get_text old (c ∷ p) = let (w, rest) = word_of (c ∷ p) in (w, some rest)

abbrev pub get_word : Bytes → Bytes → Bytes × Option Bytes
get_word old p = get_text old (skip_spaces p)

-- iss >> variable: once the stream has failed, the variables keep their values.
abbrev pub extract {ℓ} :
    {A : Type ℓ} → (A → Bytes → A × Option Bytes) → A → Option Bytes → A × Option Bytes
extract get old none = (old, none)
extract get old (some p) = get old p

-- What async_read_until and std::getline make of the bytes that came: the first line, if its end is
-- there.
unfoldable pub line_of : Bytes → Option Bytes
line_of [] = none
line_of (c ∷ p) =
    let rest = line_of p in if c == b'\n' then some [] else (rest >>= λ line. some (c ∷ line))

module _ {ℓ} {D : Type ℓ} (get_id : ℤ → Bytes → ℤ × Option Bytes)
    (get_price : D → Bytes → D × Option Bytes) (stale_id : ℤ) (stale_price : D) where
  -- The variables after iss >> header >> challenge_id >> ticker >> submitted_bid >> submitted_ask >>
  -- client_name; numbers that nothing was written to are stale.
  unfoldable pub read_response : Bytes → Response D
  read_response msg =
      let (header, s₁) = get_word [] msg in
      let (challenge_id, s₂) = extract get_id stale_id s₁ in
      let (ticker, s₃) = extract get_word [] s₂ in
      let (submitted_bid, s₄) = extract get_price stale_price s₃ in
      let (submitted_ask, s₅) = extract get_price stale_price s₄ in
      let (client_name, s₆) = extract get_word [] s₅ in
      record {
        header = header;
        challenge_id = challenge_id;
        ticker = ticker;
        submitted_bid = submitted_bid;
        submitted_ask = submitted_ask;
        client_name = client_name;
      }

  -- The line that do_read got; an empty one is passed over.
  unfoldable pub handle_line : (D → D → Bool) → Challenge D → Bytes → Option Answer × Challenge D
  handle_line close c [] = (none, c)
  handle_line close c (b ∷ line) = process_order close c (read_response (b ∷ line))
