-- ===== src/Round/Words.antt =====
-- What `process_order` reads of the line that the client sends.
use advanced_cpp_p1g.Base.{◌≡◌, ◌≢◌, refl, false, Option, some, [], ◌∷◌, ◌++◌, All}
use advanced_cpp_p1g.Base.Text.{Bytes}
use advanced_cpp_p1g.Base.Int.{ℤ}
use advanced_cpp_p1g.Challenge.{response_mark}
use advanced_cpp_p1g.Challenge.Session.{is_space, word_of, get_word, read_response}
use advanced_cpp_p1g.ChallengeClient.Reply.{response_line}
use advanced_cpp_p1g.ChallengeClient as Client

-- A text that is not empty and has no spaces.
abbrev pub IsWord : Bytes → Type 0
IsWord w = (w ≢ []) × All (λ c. is_space c ≡ false) w

word_of-append :
    (w rest : Bytes)
    → All (λ c. is_space c ≡ false) w
    → word_of (w ++ (b' ' ∷ rest)) ≡ (w, b' ' ∷ rest)
word_of-append [] rest h = refl
word_of-append (c ∷ w) rest h = rw (h.0, word_of-append w rest h.1) refl

word_of_all : (w : Bytes) → All (λ c. is_space c ≡ false) w → word_of w ≡ (w, [])
word_of_all [] h = refl
word_of_all (c ∷ w) h = rw (h.0, word_of_all w h.1) refl

get_word-IsWord :
    (old w rest : Bytes)
    → IsWord w
    → get_word old (b' ' ∷ (w ++ (b' ' ∷ rest))) ≡ (w, some (b' ' ∷ rest))
get_word-IsWord old [] rest h = absurd (h.0 refl)
get_word-IsWord old (c ∷ w) rest h = rw (h.1.0, word_of-append w rest h.1.1, h.1.0) refl

get_word_last : (old w : Bytes) → IsWord w → get_word old (b' ' ∷ w) ≡ (w, some [])
get_word_last old [] h = absurd (h.0 refl)
get_word_last old (c ∷ w) h = rw (h.1.0, word_of_all w h.1.1, h.1.0) refl

-- What `operator>>` must do: it reads a number that is printed between two spaces, an id as it was,
-- and a price as `reread` says. A
-- price is printed on one line.
pub record Reads {ℓ} {D : Type ℓ} (show_id : ℤ → Bytes) (show_six : D → Bytes) (reread : D → D)
    (get_id : ℤ → Bytes → ℤ × Option Bytes) (get_price : D → Bytes → D × Option Bytes)
    : Type ℓ where
  pub id_read :
      (old i : ℤ) (rest : Bytes)
      → get_id old (b' ' ∷ (show_id i ++ (b' ' ∷ rest))) ≡ (i, some (b' ' ∷ rest))
  pub price_read :
      (old x : D) (rest : Bytes)
      → get_price old (b' ' ∷ (show_six x ++ (b' ' ∷ rest))) ≡ (reread x, some (b' ' ∷ rest))
  pub price_line : (x : D) → All (λ c. c ≢ b'\n') (show_six x)

module _ {ℓ} {D : Type ℓ} (show_id : ℤ → Bytes) (show_six : D → Bytes) (reread : D → D)
    (get_id : ℤ → Bytes → ℤ × Option Bytes) (get_price : D → Bytes → D × Option Bytes) where
  -- From the line that the client prints for a response, where the target and the trader's name are
  -- words, the server reads the header, the id, the target, both prices as they are read back, and
  -- the trader's name.
  pub read_response-response_line :
      (reads : Reads show_id show_six reread get_id get_price) (stale_id : ℤ) (stale_price : D)
      (trader : Bytes) (r : Client.Response D)
      → IsWord trader
      → IsWord r.target
      → read_response get_id get_price stale_id stale_price
          (response_line show_id show_six trader r)
        ≡ record {
          header = response_mark;
          challenge_id = r.challenge_id;
          ticker = r.target;
          submitted_bid = reread r.bid;
          submitted_ask = reread r.ask;
          client_name = trader;
        }
  unfolding read_response response_line
  read_response-response_line reads stale_id stale_price trader r name target =
      rw
        (
          reads.id_read,
          get_word-IsWord [] r.target _ target,
          reads.price_read stale_price r.bid (show_six r.ask ++ (b' ' ∷ trader)),
          reads.price_read stale_price r.ask trader,
          get_word_last [] trader name,
        )
        refl
