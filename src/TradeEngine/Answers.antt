-- ===== src/TradeEngine/Answers.antt =====
-- What comes of a security's text, and which lines fit.
use advanced_cpp_p1g.Base.{
  ℕ, suc, ◌+◌, ◌≤◌, ◌≡◌, ◌≢◌, ◌↔◌, refl, sym, ap, ap₂, leb, ◌∙◌, Bool, true, false, if◌then◌else◌,
  Option, none, some, List, [], ◌∷◌, ◌++◌, append_assoc, length, length-append, take, drop, arith,
  All, ◌==◌, ltb, inl, inr, Bool-cases, ==_iff,
}
use advanced_cpp_p1g.Base.Text.{Bytes}
use advanced_cpp_p1g.TradeEngine.{
  substr_from, parse_sec_from, parse_sec, thrown, last_of, first_of, bid_source, parse_bid,
  parse_ask, converted, TradeInterface, response_text, submit_response, answer_for,
}

-- A section that ends past the array is written out of bounds.
parse_sec_from-none :
    (delim i : ℕ) (temp : Bytes) (parsed : List Bytes) (front rest : Bytes)
    → All (λ c. c ≢ delim) front
    → length parsed ≤ i + length front
    → parse_sec_from delim i temp parsed (front ++ (delim ∷ rest)) ≡ none
unfolding parse_sec_from
parse_sec_from-none delim i temp parsed [] rest h far =
    let same : (delim == delim) ≡ true = (==_iff delim delim).1 refl in
    let past : ltb i (length parsed) ≡ false = ground (arith, far) in
    rw (parse_sec_from, same, past) refl
parse_sec_from-none delim i temp parsed (c ∷ front) rest h far =
    let other : (c == delim) ≡ false = ground (arith, h.0) in
    rw (parse_sec_from, other)
      (parse_sec_from-none delim (suc i) (temp ++ (c ∷ [])) parsed front rest h.1 (omega arith))

-- "SEC|" ticker "|BID|" bid "|ASK|" ask, behind its first character
abbrev pub behind_s : Bytes → Bytes → Bytes → Bytes
behind_s ticker bid ask =
    b'E'
    ∷ b'C'
    ∷ b'|'
    ∷ (ticker
        ++ (b'|' ∷ b'B' ∷ b'I' ∷ b'D' ∷ b'|' ∷ (bid ++ (b'|' ∷ b'A' ∷ b'S' ∷ b'K' ∷ b'|' ∷ ask))))

abbrev pub security_text : Bytes → Bytes → Bytes → Bytes
security_text ticker bid ask = b'S' ∷ behind_s ticker bid ask

drop-append : (xs ys : Bytes) (k : ℕ) → drop (length xs + k) (xs ++ ys) ≡ drop k ys
drop-append [] ys k = ap (λ n. drop n ys) (omega arith)
drop-append (x ∷ xs) ys k =
    let e : suc (length xs) + k ≡ suc (length xs + k) = omega arith in rw e (drop-append xs ys k)

substr_from-append : (front rest : Bytes) → substr_from (length front) (front ++ rest) ≡ some rest
substr_from-append front rest =
    let room : leb (length front) (length (front ++ rest)) ≡ true =
      ground (arith, length-append front rest) in
    let behind : drop (length front) (front ++ rest) ≡ rest =
      ap (λ n. drop n (front ++ rest)) (omega arith) ∙ drop-append front rest 0 in
    rw (room, behind) refl

-- The bid stands behind sixteen characters.
substr_from-security_text :
    (ticker bid ask : Bytes)
    → length ticker ≡ 7
    → substr_from 16 (security_text ticker bid ask)
      ≡ some (bid ++ (b'|' ∷ b'A' ∷ b'S' ∷ b'K' ∷ b'|' ∷ ask))
substr_from-security_text ticker bid ask seven =
    let tag : Bytes = b'|' ∷ b'B' ∷ b'I' ∷ b'D' ∷ b'|' ∷ [] in
    let front : Bytes = b'S' ∷ b'E' ∷ b'C' ∷ b'|' ∷ (ticker ++ tag) in
    let rest : Bytes = bid ++ (b'|' ∷ b'A' ∷ b'S' ∷ b'K' ∷ b'|' ∷ ask) in
    let size : 16 ≡ length front = omega (arith, length-append ticker tag, seven) in
    let same : security_text ticker bid ask ≡ front ++ rest =
      ap (λ t. b'S' ∷ b'E' ∷ b'C' ∷ b'|' ∷ t) (sym (append_assoc ticker tag rest)) in
    ap₂ substr_from size same ∙ substr_from-append front rest

-- For a security with a ticker of seven characters and a bid of at least three, none of them a bar,
-- the engine's turn has no defined result: `parseSec` writes the bid to the place that its end has in
-- the text, past the array of three.
pub answer_for-security_text :
    (t : TradeInterface) (parsed : List Bytes) (ticker bid ask : Bytes)
    → length parsed ≡ 3
    → length ticker ≡ 7
    → 3 ≤ length bid
    → All (λ c. c ≢ b'|') bid
    → answer_for t parsed (security_text ticker bid ask) ≡ none
unfolding answer_for parse_sec
answer_for-security_text t parsed ticker bid ask three seven long plain =
    rw
      (
        substr_from-security_text ticker bid ask seven,
        parse_sec_from-none b'|' 0 [] parsed bid (b'A' ∷ b'S' ∷ b'K' ∷ b'|' ∷ ask) plain
            (omega (arith, three, long)),
      )
      refl

length-response_text :
    (t : TradeInterface) (bid ask : Bytes)
    → length (response_text t bid ask)
      ≡ length t.header
        + length t.challenge_id
        + length t.ticker
        + length bid
        + length ask
        + length t.client_name
        + 5
unfolding response_text
length-response_text t bid ask = simp length-append (omega arith)

nothing_sent : {x : Bytes} → none ≢ some x
nothing_sent e = cc

-- The line with a ticker of seven characters is sent, whole, exactly when the id and both prices have
-- at most 18 characters together; otherwise `strcpy` writes past its array.
pub submit_response-some :
    (t : TradeInterface) (bid ask : Bytes)
    → length t.header ≡ 18
    → length t.ticker ≡ 7
    → length t.client_name ≡ 6
    → (submit_response t bid ask ≡ some (response_text t bid ask))
      ↔ (length t.challenge_id + length bid + length ask ≤ 18)
unfolding submit_response
submit_response-some t bid ask header ticker name =
    let size = length-response_text t bid ask in
    elim (Bool-cases (ltb (length (response_text t bid ask)) 55)) [
      | inl e ↦ (
        (λ h. ground (arith, e, size, header, ticker, name)),
        (λ h. rw (submit_response, e) refl),
      )
      | inr e ↦ (
        (λ h. absurd (nothing_sent (sym (out e) ∙ h))),
        (λ h. absurd (ground (arith, e, size, header, ticker, name, h))),
      )
    ]
  where
    out : ltb (length (response_text t bid ask)) 55 ≡ false → submit_response t bid ask ≡ none
    out e = rw (submit_response, e) refl

last_of-some : (c : ℕ) (p : Bytes) → (x : ℕ) × (last_of (c ∷ p) ≡ some x)
last_of-some c [] = (c, refl)
last_of-some c (e ∷ p) = last_of-some e p

module _ {ℓ} {D : Type ℓ} (stod : Bytes → Option D)
    (throws : (text : Bytes) → stod (b'S' ∷ text) ≡ none) where
  source_thrown :
      (text : Bytes) (b : Bool)
      → converted stod (stod (if b then take 6 (b'S' ∷ text) else b'S' ∷ text)) ≡ thrown
  source_thrown text true = rw (throws (take 5 text)) refl
  source_thrown text false = rw (throws text) refl

  -- std::stod throws at a text that begins with S. Then `parseBid` and `parseAsk` throw at every
  -- security with a ticker of seven characters, whatever its prices are: they convert the security's
  -- text, or its first six characters, and not the part that was cut out.
  pub parse_bid-security_text :
      (ticker bid ask : Bytes) (len : ℕ)
      → length ticker ≡ 7
      → (parse_bid stod (security_text ticker bid ask) ≡ thrown)
        × (parse_ask stod (security_text ticker bid ask) len ≡ thrown)
  unfolding parse_bid parse_ask
  parse_bid-security_text ticker bid ask len seven = (
    rw (parse_bid, substr_from-security_text ticker bid ask seven) (bid_thrown bid),
    elim (Bool-cases (leb len (length (security_text ticker bid ask)))) [
      | inl e ↦
          rw (parse_ask, e)
            (source_thrown (behind_s ticker bid ask)
              (first_of (take 7 (drop len (security_text ticker bid ask))) == b'|'))
      | inr e ↦ rw (parse_ask, e) refl
    ],
  )
    where
      bid_thrown :
          (b : Bytes)
          → bid_source stod
              (security_text ticker bid ask)
              (last_of (take 7 (b ++ (b'|' ∷ b'A' ∷ b'S' ∷ b'K' ∷ b'|' ∷ ask))))
            ≡ thrown
      bid_thrown [] =
          let (x, e) = last_of-some b'|' (take 6 (b'A' ∷ b'S' ∷ b'K' ∷ b'|' ∷ ask)) in
          rw e (source_thrown (behind_s ticker bid ask) (x == b'|'))
      bid_thrown (c ∷ b) =
          let (x, e) = last_of-some c (take 6 (b ++ (b'|' ∷ b'A' ∷ b'S' ∷ b'K' ∷ b'|' ∷ ask))) in
          rw e (source_thrown (behind_s ticker bid ask) (x == b'|'))
