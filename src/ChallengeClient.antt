-- ===== src/ChallengeClient.antt =====
-- final_project/client.cpp (and Client.cpp, an earlier copy of it): what the client makes of a packet.
-- A `char*` into the NUL-terminated buffer is the list of the bytes before the NUL. Where the code
-- moves the pointer past the NUL, it goes on in the bytes of an earlier packet; where it uses `target`
-- before one was received, the bytes are not initialised: both are `stale`. Sockets and logs are not
-- modelled. Arithmetic on doubles and std::atoi are parameters.
pub mod Scan
pub mod Lines
pub mod Answer
pub mod Earlier
pub mod Ends
pub mod Reply
pub mod Unary
mod Examples
use advanced_cpp_p1g.Base.{
  ℕ, zero, suc, ◌+◌, ◌-◌, Bool, true, false, Option, none, some, List, [], ◌∷◌, ◌++◌, ◌&&◌, leb,
  ltb, ◌==◌, if◌then◌else◌, length,
}
use advanced_cpp_p1g.Base.Fault.{◌>>=◌}
use advanced_cpp_p1g.Base.Text.{Bytes, same_bytes}
use advanced_cpp_p1g.Base.Int.{ℤ, pos}

-- The text starts with the pattern.
abbrev pub starts : Bytes → Bytes → Bool
starts [] text = true
starts (x ∷ pat) [] = false
starts (x ∷ pat) (c ∷ text) = (x == c) && starts pat text

-- The bytes that p += n leaves, and those that it passes; `none` if they reach past the NUL.
abbrev pub pass : ℕ → Bytes → Option (Bytes × Bytes)
pass zero p = some ([], p)
pass (suc n) [] = none
pass (suc n) (c ∷ p) = pass n p >>= λ (front, rest). some (c ∷ front, rest)

abbrev pub jump : ℕ → Bytes → Option Bytes
jump n p = pass n p >>= λ (front, rest). some rest

-- while (*p && *p++ != '\n');
abbrev pub next_line : Bytes → Bytes
next_line [] = []
next_line (c ∷ p) = if c == b'\n' then p else next_line p

-- std::strstr(text, pat) + strlen(pat)
unfoldable pub behind : Bytes → Bytes → Option Bytes
behind pat [] = none
behind pat (c ∷ text) =
    let rest = behind pat text in
    if starts pat (c ∷ text) then jump (length pat) (c ∷ text) else rest

abbrev pub is_digit : ℕ → Bool
is_digit c = leb b'0' c && leb c b'9'

-- The arithmetic of `parse_double`: `digit` turns a digit's value into a double.
pub record Decimal {ℓ} (D : Type ℓ) : Type ℓ where
  pub nought : D
  pub one : D
  pub ten : D
  pub tenth : D
  pub digit : ℕ → D
  pub add : D → D → D
  pub mul : D → D → D

pub record Entry {ℓ} (D : Type ℓ) : Type ℓ where
  pub ticker : Bytes
  pub bid : D
  pub ask : D

module _ {ℓ} {D : Type ℓ} ⦃d : Decimal D⦄ where
  open d use {nought, one, ten, tenth, digit, add, mul}

  -- The value so far, and the pointer.
  unfoldable pub whole_part : D → Bytes → D × Bytes
  whole_part value [] = (value, [])
  whole_part value (c ∷ p) =
      let rest = whole_part (add (mul value ten) (digit (c - b'0'))) p in
      if is_digit c then rest else (value, c ∷ p)

  unfoldable pub fraction : D → D → Bytes → D × Bytes
  fraction place value [] = (value, [])
  fraction place value (c ∷ p) =
      let rest =
        fraction (mul place tenth) (add value (mul (digit (c - b'0')) (mul place tenth))) p in
      if is_digit c then rest else (value, c ∷ p)

  abbrev pub after_whole : D × Bytes → D × Bytes
  after_whole (value, []) = (value, [])
  after_whole (value, c ∷ p) = if c == b'.' then fraction one value p else (value, c ∷ p)

  unfoldable pub parse_double : Bytes → D × Bytes
  parse_double p = after_whole (whole_part nought p)

  -- The body of the test for "SEC|": the entry, and the pointer behind it.
  unfoldable pub parse_entry : Bytes → Option (Entry D × Bytes)
  parse_entry p = do
    p₁ ← jump 4 p
    (ticker, p₂) ← pass 7 p₁
    p₃ ← jump 5 p₂
    p₅ ← jump 1 (parse_double p₃).1
    p₆ ← jump 4 p₅
    some (
      record { ticker = ticker; bid = (parse_double p₃).0; ask = (parse_double p₆).0 },
      (parse_double p₆).1,
    )

-- How the loop over the packet ends.
pub data Parsed {ℓ} (D : Type ℓ) : Type ℓ where
  entries : List (Entry D) → Parsed D
  stale : Parsed D
  out_of_fuel : Parsed D

abbrev pub sec_mark : Bytes
sec_mark = b'S' ∷ b'E' ∷ b'C' ∷ b'|' ∷ []

abbrev pub id_mark : Bytes
id_mark =
    b'C' ∷ b'H' ∷ b'A' ∷ b'L' ∷ b'L' ∷ b'E' ∷ b'N' ∷ b'G' ∷ b'E' ∷ b'_' ∷ b'I' ∷ b'D' ∷ b':' ∷ []

abbrev pub target_mark : Bytes
target_mark = b'T' ∷ b'A' ∷ b'R' ∷ b'G' ∷ b'E' ∷ b'T' ∷ b':' ∷ []

module _ {ℓ} {D : Type ℓ} ⦃d : Decimal D⦄ where
  -- while (*p && ec < 10), with the entries so far; `fuel` bounds the turns.
  unfoldable pub parse_packet : ℕ → List (Entry D) → Bytes → Parsed D
  parse_packet zero found p = out_of_fuel
  parse_packet (suc fuel) found [] = entries found
  parse_packet (suc fuel) found (c ∷ p) = elim (ltb (length found) 10) [
    | false ↦ entries found
    | true ↦ elim (starts sec_mark (c ∷ p)) [
      | false ↦ parse_packet fuel found (next_line (c ∷ p))
      | true ↦ elim (parse_entry {D = D} (c ∷ p)) [
        | none ↦ stale
        | some (e, rest) ↦ parse_packet fuel (found ++ (e ∷ [])) (next_line rest)
      ]
    ]
  ]

  -- The bid and ask of the first entry of the target, and 0 if there is none.
  abbrev pub prices_of : Bytes → List (Entry D) → D × D
  prices_of target [] = (d.nought, d.nought)
  prices_of target (e ∷ es) =
      if same_bytes e.ticker target then (e.bid, e.ask) else prices_of target es

-- What the client keeps from packet to packet; `none` stands for bytes that were never written.
pub record Memory : Type 0 where
  pub challenge_id : ℤ
  pub target : Option Bytes

-- The fields of the line that is sent; Reply prints it.
pub record Response {ℓ} (D : Type ℓ) : Type ℓ where
  pub challenge_id : ℤ
  pub target : Bytes
  pub bid : D
  pub ask : D

abbrev pub new_id : (Bytes → ℤ) → ℤ → Option Bytes → ℤ
new_id atoi old none = old
new_id atoi old (some p) = atoi p

-- memcpy(target, tgt_pos + 7, 7)
abbrev pub new_target : Option Bytes → Option Bytes → Option (Option Bytes)
new_target old none = some old
new_target old (some p) = pass 7 p >>= λ (front, rest). some (some front)

module _ {ℓ} {D : Type ℓ} ⦃d : Decimal D⦄ (atoi : Bytes → ℤ) where
  abbrev pub entries_in : Parsed D → Option (List (Entry D))
  entries_in (entries es) = some es
  entries_in stale = none
  entries_in out_of_fuel = none

  -- A turn of the loop in `main`; `none` where it uses stale bytes. A packet of n bytes is parsed in
  -- at most n + 1 turns.
  unfoldable pub answer : Memory → Bytes → Option (Memory × Response D)
  answer m packet = do
    es ← entries_in (parse_packet (suc (length packet)) [] packet)
    target ← new_target m.target (behind target_mark packet)
    t ← target
    let id = new_id atoi m.challenge_id (behind id_mark packet)
    some (
      record { challenge_id = id; target = some t },
      record { challenge_id = id; target = t; bid = (prices_of t es).0; ask = (prices_of t es).1 },
    )
