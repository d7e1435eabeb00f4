-- ===== src/TradeEngine.antt =====
-- final_project/TradeEngine.cpp and TradeInterface.cpp: what is made of the text of a security, and the
-- line that answers the challenge. `none` is a run with no defined result. std::stod is a parameter;
-- it gives `none` where it throws. Sockets and the threads that fill the buffer's map are not modelled.
pub mod Sections
pub mod Answers
mod Examples
use advanced_cpp_p1g.Base.{
  ℕ, suc, ◌+◌, Bool, true, false, Option, none, some, List, [], ◌∷◌, ◌++◌, ltb, leb, ◌==◌,
  if◌then◌else◌, length, take, drop, set, get_elem?,
}
use advanced_cpp_p1g.Base.Text.{Bytes}
use advanced_cpp_p1g.Base.Fault.{◌>>=◌}

-- text.substr(pos); `none` where it throws.
abbrev pub substr_from : ℕ → Bytes → Option Bytes
substr_from pos text = if leb pos (length text) then some (drop pos text) else none

-- The loop of `parseSec` from character `i` on, with the section so far and the array `parsed`.
unfoldable pub parse_sec_from : ℕ → ℕ → Bytes → List Bytes → Bytes → Option (List Bytes)
parse_sec_from delim i temp parsed [] = some parsed
parse_sec_from delim i temp parsed (c ∷ sec) = elim (c == delim) [
  | false ↦ parse_sec_from delim (suc i) (temp ++ (c ∷ [])) parsed sec
  | true ↦ elim (ltb i (length parsed)) [
    | false ↦ none
    | true ↦ parse_sec_from delim (suc i) [] (set parsed i temp) sec
  ]
]

unfoldable pub parse_sec : ℕ → List Bytes → Bytes → Option (List Bytes)
parse_sec delim parsed sec = parse_sec_from delim 0 [] parsed sec

-- What a conversion of a text comes to.
pub data Conversion {ℓ} (D : Type ℓ) : Type ℓ where
  number : D → Conversion D
  thrown : Conversion D
  undefined : Conversion D

-- sec_to_p[sec_to_p.length() - 1]: there is no such character in an empty text.
abbrev pub last_of : Bytes → Option ℕ
last_of [] = none
last_of (c ∷ []) = some c
last_of (c ∷ (e ∷ p)) = last_of (e ∷ p)

-- sec_to_p[0], which is NUL in an empty text
abbrev pub first_of : Bytes → ℕ
first_of [] = 0
first_of (c ∷ p) = c

module _ {ℓ} {D : Type ℓ} (stod : Bytes → Option D) where
  abbrev pub converted : Option D → Conversion D
  converted none = thrown
  converted (some x) = number x

  -- The text that `parse_bid` converts.
  abbrev pub bid_source : Bytes → Option ℕ → Conversion D
  bid_source security none = undefined
  bid_source security (some c) = converted (stod (if c == b'|' then take 6 security else security))

  unfoldable pub parse_bid : Bytes → Conversion D
  parse_bid security = elim (substr_from 16 security) [
    | none ↦ thrown
    | some rest ↦ bid_source security (last_of (take 7 rest))
  ]

  unfoldable pub parse_ask : Bytes → ℕ → Conversion D
  parse_ask security len = elim (substr_from len security) [
    | none ↦ thrown
    | some rest ↦
        converted (stod (if first_of (take 7 rest) == b'|' then take 6 security else security))
  ]

-- The fields of TradeInterface that the line is made of.
pub record TradeInterface : Type 0 where
  pub header : Bytes
  pub challenge_id : Bytes
  pub ticker : Bytes
  pub client_name : Bytes

unfoldable pub response_text : TradeInterface → Bytes → Bytes → Bytes
response_text t submitted_bid submitted_ask =
    t.header
    ++ (b' '
        ∷ (t.challenge_id
            ++ (b' '
                ∷ (t.ticker
                    ++ (b' '
                        ∷ (submitted_bid ++ (b' ' ∷ (submitted_ask ++ (b' ' ∷ t.client_name)))))))))

-- What is sent: strcpy copies the text and a NUL into 55 bytes.
unfoldable pub submit_response : TradeInterface → Bytes → Bytes → Option Bytes
submit_response t submitted_bid submitted_ask =
    let response = response_text t submitted_bid submitted_ask in
    if ltb (length response) 55 then some response else none

-- The end of a turn of the main loop, for the security's text that was looked up.
unfoldable pub answer_for : TradeInterface → List Bytes → Bytes → Option (List Bytes × Bytes)
answer_for t parsed security = do
  sec ← substr_from 16 security
  parsed₁ ← parse_sec b'|' parsed sec
  bid ← get_elem? parsed₁ 0
  ask ← get_elem? parsed₁ 2
  sent ← submit_response t bid ask
  some (parsed₁, sent)
