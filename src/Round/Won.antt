-- ===== src/Round/Won.antt =====
-- What comes of a round when the prices survive printing and reading.
pub mod Steps
use advanced_cpp_p1g.Base.{
  ℕ, suc, ◌≤◌, ◌<◌, ◌≡◌, ◌≢◌, refl, sym, ap, subst, ◌∙◌, Bool, true, false, Option, some, List, [],
  ◌∷◌, ◌++◌, map, length, length-append, get_elem?, find, find-All, find-split, arith, All, All-map,
  All-append,
}
use advanced_cpp_p1g.Base.Text.{Bytes, same_bytes_iff, bytes_eq}
use advanced_cpp_p1g.Base.Fault.{some-inj}
use advanced_cpp_p1g.Base.Int.{ℤ, eqb_ℤ}
use advanced_cpp_p1g.Challenge.{
  Challenge, response_mark, incorrect, process_order, process_all, max_udp_payload, fragments,
}
use advanced_cpp_p1g.Challenge.Broadcast.{security_of, challenge_message}
use advanced_cpp_p1g.Challenge.Session.{is_space, line_of, handle_line}
use advanced_cpp_p1g.Challenge.Generate.{generate_challenge}
use advanced_cpp_p1g.Challenge.Winner.{settled}
use advanced_cpp_p1g.Challenge as Server
use advanced_cpp_p1g.Challenge.Packets.{fragments_single}
use advanced_cpp_p1g.ChallengeClient.Scan.{value_of}
use advanced_cpp_p1g.ChallengeClient.{Decimal, Memory, answer}
use advanced_cpp_p1g.ChallengeClient.Answer.{Prints, IsTicker, text, answer-challenge_message}
use advanced_cpp_p1g.ChallengeClient.Reply.{response_line, sent_of}
use advanced_cpp_p1g.Round.Words.{IsWord, Reads, read_response-response_line}
use advanced_cpp_p1g.Round.Market.{IsName, generate_challenge-prices}
use advanced_cpp_p1g.Round.Play.{message_of, reply_to, play, Visits}
use advanced_cpp_p1g.ChallengeClient as Client
use advanced_cpp_p1g.Round.Won.Steps.{
  map-append, length-map, eqb_ℤ_refl, word_no_break, line_of-append, sent_of_short, name_not_empty,
  keys-security_of, visited-IsName,
}

module _ {ℓ} {D : Type ℓ} ⦃d : Decimal D⦄ (parts : D → Bytes × Option Bytes) (show_id : ℤ → Bytes)
    (atoi : Bytes → ℤ) (show_six : D → Bytes) (reread : D → D)
    (get_id : ℤ → Bytes → ℤ × Option Bytes) (get_price : D → Bytes → D × Option Bytes)
    (prints : Prints parts show_id atoi) (reads : Reads show_id show_six reread get_id get_price)
    (trader : Bytes) (name : IsWord trader) where
  answer-message_of :
      (m : Memory) (c : Challenge D) (visited : List (Bytes × (D × D))) (bid ask : D)
      → length visited ≤ 10
      → All (λ e. IsName e.0) visited
      → IsName c.target_ticker
      → find c.target_ticker visited ≡ some (bid, ask)
      → answer {D = D} atoi m (message_of (text parts) show_id c visited)
        ≡ some (
          record { challenge_id = c.challenge_id; target = some c.target_ticker },
          reply_to parts c bid ask,
        )
  answer-message_of m c visited bid ask few names target found =
      let (xs, ys, e, fresh) = find-split c.target_ticker visited (bid, ask) found in
      let s = security_of (c.target_ticker, (bid, ask)) in
      let split : map security_of visited ≡ map security_of xs ++ (s ∷ map security_of ys) =
        ap (map security_of) e ∙ map-append security_of xs ((c.target_ticker, (bid, ask)) ∷ ys) in
      let tickers =
        keys-security_of IsTicker visited (All-map (λ k (h : IsName k.0). h.0) visited names) in
      rw split (
        answer-challenge_message parts show_id atoi prints m (map security_of xs)
          (map security_of ys) s c.challenge_id
          (omega (arith, ap length split, length-map security_of visited))
          (subst (All (λ x. IsTicker x.ticker)) split tickers) target.0
          (keys-security_of (λ t. t ≢ c.target_ticker) xs fresh))

  response_line_no_break :
      (r : Client.Response D)
      → IsWord r.target
      → All (λ c. c ≢ b'\n') (response_line show_id show_six trader r)
  unfolding response_line
  response_line_no_break r target =
      let P : ℕ → Type 0 = λ c. c ≢ b'\n' in
      let words = λ (w : Bytes) (h : IsWord w). All-map word_no_break w h.1 in
      let space : P b' ' = omega arith in
      let All_with : (w : Bytes) (t : Bytes) → All P w → All P t → All P (b' ' ∷ (w ++ t)) =
        λ w t h k. (space, All-append P w t h k) in
      let last : All P (b' ' ∷ trader) = (space, words trader name) in
      let ask_text : Bytes = b' ' ∷ (show_six r.ask ++ (b' ' ∷ trader)) in
      let bid_text : Bytes = b' ' ∷ (show_six r.bid ++ ask_text) in
      let ticker_text : Bytes = b' ' ∷ (r.target ++ bid_text) in
      let id_text : Bytes = b' ' ∷ (show_id r.challenge_id ++ ticker_text) in
      let ask = All_with (show_six r.ask) (b' ' ∷ trader) (reads.price_line r.ask) last in
      let bid = All_with (show_six r.bid) ask_text (reads.price_line r.bid) ask in
      let ticker = All_with r.target bid_text (words r.target target) bid in
      let plain : All P (show_id r.challenge_id) =
        All-map (λ c (h : (c ≢ b'\n') × (c ≢ b':')). h.0) (show_id r.challenge_id)
          (prints.id_plain r.challenge_id) in
      All-append P response_mark id_text (omega arith)
        (All_with (show_id r.challenge_id) ticker_text plain ticker)

  length-message_of :
      (c : Challenge D) (visited : List (Bytes × (D × D)))
      → 0 < length (message_of (text parts) show_id c visited)
  unfolding challenge_message
  length-message_of c [] = omega arith
  length-message_of c ((t, (bid, ask)) ∷ visited) = omega arith

  module _ (stale_id : ℤ) (stale_price : D) (close : D → D → Bool) where
    handle_line_wins :
        (c : Challenge D) (bid ask : D)
        → IsWord c.target_ticker
        → find c.target_ticker c.market_data ≡ some (bid, ask)
        → c.winner_declared ≡ false
        → close (reread (value_of (parts bid))) bid ≡ true
        → close (reread (value_of (parts ask))) ask ≡ true
        → handle_line get_id get_price stale_id stale_price close c
            (response_line show_id show_six trader (reply_to parts c bid ask))
          ≡ (some incorrect, record c { winner_declared = true; winner_name = trader })
    unfolding handle_line response_line process_order
    handle_line_wins c bid ask word expected undecided bid_ok ask_ok =
        ap (process_order close c) (
          read_response-response_line show_id show_six reread get_id get_price reads stale_id
            stale_price trader (reply_to parts c bid ask) name word)
        ∙ simp
            (
              eqb_ℤ_refl c.challenge_id,
              (same_bytes_iff c.target_ticker c.target_ticker).1 refl,
              undecided,
              expected,
              bid_ok,
              ask_ok,
            )
            refl

    play_wins :
        (c : Challenge D) (visited : List (Bytes × (D × D))) (bid ask : D) (m : Memory)
        → length visited ≤ 10
        → All (λ e. IsName e.0) visited
        → IsName c.target_ticker
        → find c.target_ticker visited ≡ some (bid, ask)
        → find c.target_ticker c.market_data ≡ some (bid, ask)
        → c.winner_declared ≡ false
        → length (message_of (text parts) show_id c visited) ≤ max_udp_payload
        → length (response_line show_id show_six trader (reply_to parts c bid ask)) < 127
        → close (reread (value_of (parts bid))) bid ≡ true
        → close (reread (value_of (parts ask))) ask ≡ true
        → play {D = D} atoi show_id show_six trader get_id get_price stale_id stale_price close m
            (fragments max_udp_payload (message_of (text parts) show_id c visited))
            c
          ≡ some (some incorrect ∷ [], record c { winner_declared = true; winner_name = trader })
    unfolding play
    play_wins c visited bid ask m few names target found expected undecided fits room bid_ok
          ask_ok =
        let word : IsWord c.target_ticker = (name_not_empty c.target_ticker target, target.1) in
        let line = response_line show_id show_six trader (reply_to parts c bid ask) in
        let short : length (line ++ (b'\n' ∷ [])) < 128 =
          omega (arith, length-append line (b'\n' ∷ []), room) in
        rw
          (
            fragments_single (message_of (text parts) show_id c visited)
                (length-message_of c visited) fits,
            answer-message_of m c visited bid ask few names target found,
            sent_of_short (line ++ (b'\n' ∷ [])) short,
            line_of-append line (response_line_no_break (reply_to parts c bid ask) word),
          )
          (rw (handle_line_wins c bid ask word expected undecided bid_ok ask_ok) refl)

    -- A round with a challenge from at most ten draws, of which the one at `index` is a bid and an
    -- increment: the loop visits every entry of the market once, the message fits into a packet and
    -- the line into 127 bytes, and both prices of the target come back close enough from printing and
    -- reading. Then a client that answers first, whatever it kept from before, makes its trader the
    -- winner, and is told INCORRECT; nothing else of the challenge changes, then or by any later
    -- responses.
    pub play-generate_challenge :
        (add : D → D → D) (last_id : ℤ) (draws : List (D × D)) (index : ℕ) (bid inc : D)
        (c : Challenge D) (visited : List (Bytes × (D × D))) (m : Memory)
        (later : List (Server.Response D))
        → length draws ≤ 10
        → get_elem? draws index ≡ some (bid, inc)
        → generate_challenge add last_id draws index ≡ some c
        → Visits c.market_data visited
        → length (message_of (text parts) show_id c visited) ≤ max_udp_payload
        → length (response_line show_id show_six trader (reply_to parts c bid (add bid inc))) < 127
        → close (reread (value_of (parts bid))) bid ≡ true
        → close (reread (value_of (parts (add bid inc)))) (add bid inc) ≡ true
        → (play {D = D} atoi show_id show_six trader get_id get_price stale_id stale_price close m
              (fragments max_udp_payload (message_of (text parts) show_id c visited))
              c
            ≡ some (some incorrect ∷ [], record c { winner_declared = true; winner_name = trader }))
          × (process_all close (record c { winner_declared = true; winner_name = trader }) later
              ≡ record c { winner_declared = true; winner_name = trader })
    play-generate_challenge add last_id draws index bid inc c visited m later ten drawn made visits
          fits room bid_ok ask_ok =
        let (c₁, made₁, id, undecided, target, found, few, names) =
          generate_challenge-prices add last_id draws index bid inc (omega (arith, ten)) drawn in
        let same : c₁ ≡ c = some-inj (sym made₁ ∙ made) in
        let found_c : find c.target_ticker c.market_data ≡ some (bid, add bid inc) =
          subst (λ x. find x.target_ticker x.market_data ≡ some (bid, add bid inc)) same found in
        let names_c : All (λ e. IsName e.0) c.market_data =
          subst (λ x. All (λ e. IsName e.0) x.market_data) same names in
        let few_c : length c.market_data ≤ length draws =
          subst (λ x. length x.market_data ≤ length draws) same few in
        (
          play_wins c visited bid (add bid inc) m (omega (arith, visits.as_many, few_c, ten))
              (visited-IsName c.market_data visited names_c visits.entries_of_it)
              (find-All IsName c.target_ticker c.market_data (bid, add bid inc) names_c found_c)
              (visits.same_entries c.target_ticker ∙ found_c) found_c
              (subst (λ x. x.winner_declared ≡ false) same undecided) fits room bid_ok ask_ok,
          settled close (record c { winner_declared = true; winner_name = trader }) later refl,
        )
