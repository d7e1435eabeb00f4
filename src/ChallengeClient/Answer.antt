-- ===== src/ChallengeClient/Answer.antt =====
-- What the client answers to the server's broadcast.
use advanced_cpp_p1g.Base.Text.{Bytes, same_bytes_iff}
use advanced_cpp_p1g.Base.{
  ℕ, zero, suc, ◌+◌, ◌≤◌, ◌<◌, ◌≡◌, ◌≢◌, refl, sym, ap, ◌∙◌, inl, inr, true, Option, none, some,
  List, [], ◌∷◌, ◌++◌, length, length-append, append_assoc, append-nil, arith, All, All-map,
  All-append, ltb, Bool-cases, map,
}
use advanced_cpp_p1g.Base.Int.{ℤ}
use advanced_cpp_p1g.Challenge.Broadcast.{
  Security, security_line, security_lines, challenge_message,
}
use advanced_cpp_p1g.ChallengeClient.Scan.{
  next_line-append, occurs, behind-line, number, IsNumber, value_of, parse_double-number,
}
use advanced_cpp_p1g.ChallengeClient.{
  behind, Decimal, Entry, parse_entry, entries, sec_mark, id_mark, target_mark, parse_packet,
  prices_of, Memory, answer,
}
use advanced_cpp_p1g.ChallengeClient.Lines.{
  IsPlain, no_colon, digits_no_colon, no_newline, last_lines, pass_seven, behind_id, behind_target,
}

module _ {ℓ} {D : Type ℓ} ⦃d : Decimal D⦄ (parts : D → Bytes × Option Bytes) where
  abbrev pub text : D → Bytes
  text x = number (parts x)

  abbrev pub entry_of : Security D → Entry D
  entry_of s = record {
    ticker = s.ticker;
    bid = value_of (parts s.bid);
    ask = value_of (parts s.ask);
  }

  module _ (numbers : (x : D) → IsNumber (parts x)) where
    -- The line, with brackets to the right.
    after_bid : Security D → Bytes → Bytes
    after_bid s rest = b'|' ∷ b'A' ∷ b'S' ∷ b'K' ∷ b'|' ∷ (text s.ask ++ (b'\n' ∷ rest))

    after_ticker : Security D → Bytes → Bytes
    after_ticker s rest = b'|' ∷ b'B' ∷ b'I' ∷ b'D' ∷ b'|' ∷ (text s.bid ++ after_bid s rest)

    line_eq :
        (s : Security D) (rest : Bytes)
        → security_line text s ++ (b'\n' ∷ rest)
          ≡ b'S' ∷ b'E' ∷ b'C' ∷ b'|' ∷ (s.ticker ++ after_ticker s rest)
    unfolding after_ticker after_bid
    line_eq s rest = simp append_assoc refl

    parse_entry-line :
        (s : Security D) (rest : Bytes)
        → length s.ticker ≡ 7
        → parse_entry (security_line text s ++ (b'\n' ∷ rest)) ≡ some (entry_of s, b'\n' ∷ rest)
    unfolding parse_entry after_ticker after_bid
    parse_entry-line s rest seven =
        let bid_read =
          parse_double-number {D = D} (parts s.bid) (after_bid s rest) (numbers s.bid)
            (refl, refl) in
        let ask_read =
          parse_double-number {D = D} (parts s.ask) (b'\n' ∷ rest) (numbers s.ask) (refl, refl) in
        ap (parse_entry {D = D}) (line_eq s rest)
        ∙ rw (pass_seven s.ticker (after_ticker s rest) seven, bid_read, ask_read) refl

    parse_packet_last :
        (fuel : ℕ) (found : List (Entry D)) (id_text target : Bytes)
        → 2 < fuel
        → IsPlain id_text
        → IsPlain target
        → parse_packet fuel found (last_lines id_text target) ≡ entries found
    unfolding parse_packet
    parse_packet_last zero found i t h p q = absurd (omega arith)
    parse_packet_last (suc zero) found i t h p q = absurd (omega arith)
    parse_packet_last (suc (suc zero)) found i t h p q = absurd (omega arith)
    parse_packet_last (suc (suc (suc fuel))) found i t h p q =
        elim (Bool-cases (ltb (length found) 10)) [
          | inl e ↦
              rw
                (
                  e,
                  parse_packet,
                  next_line-append i ((target_mark ++ t) ++ (b'\n' ∷ [])) (no_newline i p),
                )
                (rw (e, parse_packet, next_line-append t [] (no_newline t q)) refl)
          | inr e ↦ rw (e, parse_packet) refl
        ]

    parse_packet-lines :
        (ss : List (Security D)) (fuel : ℕ) (found : List (Entry D)) (id_text target : Bytes)
        → length ss + 2 < fuel
        → length found + length ss ≤ 10
        → IsPlain id_text
        → IsPlain target
        → All (λ s. length s.ticker ≡ 7) ss
        → parse_packet fuel found (security_lines text ss (last_lines id_text target))
          ≡ entries (found ++ map entry_of ss)
    unfolding parse_packet
    parse_packet-lines [] fuel found i t h few p q sevens =
        parse_packet_last fuel found i t (omega arith) p q ∙ ap entries (sym (append-nil found))
    parse_packet-lines (s ∷ ss) zero found i t h few p q sevens = absurd (omega arith)
    parse_packet-lines (s ∷ ss) (suc fuel) found i t h few p q sevens =
        let room : ltb (length found) 10 ≡ true = ground arith in
        rw
          (
            room,
            parse_packet,
            parse_entry-line s (security_lines text ss (last_lines i t)) sevens.0,
          )
          (parse_packet-lines ss fuel (found ++ (entry_of s ∷ [])) i t (omega arith)
              (omega (arith, length-append found (entry_of s ∷ []))) p q sevens.1
            ∙ ap entries (append_assoc found (entry_of s ∷ []) (map entry_of ss)))

    number_no_colon : (n : Bytes × Option Bytes) → IsNumber n → All (λ c. c ≢ b':') (number n)
    number_no_colon (front, none) h = digits_no_colon front h
    number_no_colon (front, some back) h =
        All-append (λ c. c ≢ b':') front (b'.' ∷ back) (digits_no_colon front h.0)
          (omega arith, digits_no_colon back h.1)

    line_no_colon : (s : Security D) → IsPlain s.ticker → All (λ c. c ≢ b':') (security_line text s)
    line_no_colon s h =
        let P : ℕ → Type 0 = λ c. c ≢ b':' in
        let ask_mark : Bytes = b'|' ∷ b'A' ∷ b'S' ∷ b'K' ∷ b'|' ∷ [] in
        let bid_mark : Bytes = b'|' ∷ b'B' ∷ b'I' ∷ b'D' ∷ b'|' ∷ [] in
        let ask_text : Bytes = ask_mark ++ text s.ask in
        let bid_text : Bytes = bid_mark ++ (text s.bid ++ ask_text) in
        let asks : All P ask_text =
          All-append P ask_mark (text s.ask) (omega arith)
            (number_no_colon (parts s.ask) (numbers s.ask)) in
        let bids : All P bid_text = All-append P bid_mark (text s.bid ++ ask_text) (omega arith) (
          All-append P (text s.bid) ask_text (number_no_colon (parts s.bid) (numbers s.bid))
            asks) in
        All-append P sec_mark (s.ticker ++ bid_text) (omega arith)
          (All-append P s.ticker bid_text (no_colon s.ticker h) bids)

    behind-lines :
        (pat : Bytes) (ss : List (Security D)) (rest : Bytes)
        → All (λ c. c ≢ b'\n') pat
        → occurs b':' pat ≡ true
        → All (λ s. IsPlain s.ticker) ss
        → behind pat (security_lines text ss rest) ≡ behind pat rest
    behind-lines pat [] rest h o plain = refl
    behind-lines pat (s ∷ ss) rest h o plain =
        behind-line b':' pat (security_line text s) (security_lines text ss rest) h o
          (line_no_colon s plain.0)
        ∙ behind-lines pat ss rest h o plain.1

    length-security_lines :
        (ss : List (Security D)) (id_text target : Bytes)
        → length ss + 2 ≤ length (security_lines text ss (last_lines id_text target))
    length-security_lines [] i t =
        omega (arith, length-append i ((b'\n' ∷ ((target_mark ++ t) ++ (b'\n' ∷ [])))))
    length-security_lines (s ∷ ss) i t =
        let rest = security_lines text ss (last_lines i t) in
        omega
          (arith, length-append (security_line text s) (b'\n' ∷ rest), length-security_lines ss i t)

    prices_of-first :
        (xs ys : List (Security D)) (s : Security D)
        → All (λ x. x.ticker ≢ s.ticker) xs
        → prices_of s.ticker (map entry_of (xs ++ (s ∷ ys)))
          ≡ (value_of (parts s.bid), value_of (parts s.ask))
    prices_of-first [] ys s h = rw ((same_bytes_iff s.ticker s.ticker).1 refl) refl
    prices_of-first (x ∷ xs) ys s h =
        ground (arith, h.0, (same_bytes_iff x.ticker s.ticker).0, prices_of-first xs ys s h.1)

-- What the printing and reading of numbers must do: a double is printed with digits and at most one
-- point, an id with neither a colon, the end of a line nor a T, and atoi reads an id back up to the
-- end of its line.
pub record Prints {ℓ} {D : Type ℓ} (parts : D → Bytes × Option Bytes) (show_id : ℤ → Bytes)
    (atoi : Bytes → ℤ) : Type ℓ where
  pub numbers : (x : D) → IsNumber (parts x)
  pub id_plain : (i : ℤ) → IsPlain (show_id i)
  pub id_no_t : (i : ℤ) → All (λ c. c ≢ b'T') (show_id i)
  pub id_back : (i : ℤ) (rest : Bytes) → atoi (show_id i ++ (b'\n' ∷ rest)) ≡ i

-- A ticker of seven bytes, none of which is a colon or the end of a line.
abbrev pub IsTicker : Bytes → Type 0
IsTicker t = (length t ≡ 7) × IsPlain t

module _ {ℓ} {D : Type ℓ} ⦃d : Decimal D⦄ (parts : D → Bytes × Option Bytes) (show_id : ℤ → Bytes)
    (atoi : Bytes → ℤ) (prints : Prints parts show_id atoi) where
  -- The client's answer to the server's message of at most ten securities with tickers of seven
  -- bytes: whatever it kept from before, it uses no stale bytes, and sends the challenge's id, the
  -- target, and the values of the digits that were printed for the bid and the ask of the first
  -- security of that ticker.
  pub answer-challenge_message :
      (m : Memory) (xs ys : List (Security D)) (s : Security D) (id : ℤ)
      → length (xs ++ (s ∷ ys)) ≤ 10
      → All (λ x. IsTicker x.ticker) (xs ++ (s ∷ ys))
      → IsTicker s.ticker
      → All (λ x. x.ticker ≢ s.ticker) xs
      → answer {D = D} atoi m (challenge_message (text parts) show_id (xs ++ (s ∷ ys)) id s.ticker)
        ≡ some (
          record { challenge_id = id; target = some s.ticker },
          record {
            challenge_id = id;
            target = s.ticker;
            bid = value_of (parts s.bid);
            ask = value_of (parts s.ask);
          },
        )
  unfolding answer challenge_message
  answer-challenge_message m xs ys s id few tickers ticker fresh =
      let ss = xs ++ (s ∷ ys) in
      let i = show_id id in
      let t = s.ticker in
      let plain = All-map (λ x (h : IsTicker x.ticker). h.1) ss tickers in
      let read =
        parse_packet-lines parts prints.numbers ss
          (suc (length (security_lines (text parts) ss (last_lines i t)))) [] i t
          (omega (arith, length-security_lines parts prints.numbers ss i t)) (omega (arith, few))
          (prints.id_plain id) ticker.1 (All-map (λ x (h : IsTicker x.ticker). h.0) ss tickers) in
      let found_target =
        behind-lines parts prints.numbers target_mark ss (last_lines i t) (omega arith) refl plain
        ∙ behind_target i t (prints.id_no_t id) in
      let found_id =
        behind-lines parts prints.numbers id_mark ss (last_lines i t) (omega arith) refl plain
        ∙ behind_id i t in
      rw (read, found_target, found_id)
        (rw (pass_seven t (b'\n' ∷ []) ticker.0)
          (rw (prints.id_back id _, prices_of-first parts prints.numbers xs ys s fresh) refl))
