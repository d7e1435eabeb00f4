-- ===== src/FeedTrader/Feed.antt =====
-- Phase_3/feed_parser.h. A line is a list of character codes. The stream that a line is read from is
-- a parameter: what std::istringstream makes of a line, and what its operator >> extracts for a
-- word, a double and an int, with the rest of the stream, or `none` where the extraction fails.
use Prim.Native.String.{String}
use text.Mathlib.Text.{◌==◌ as str_eq}
use advanced_cpp_p1g.Base.{
  ℕ, ◌≤◌, ◌≡◌, refl, Bool, true, Option, none, some, List, [], ◌∷◌, ◌⊎◌, suc, ◌==◌, if◌then◌else◌,
  length, arith, All, Bool-cases, Option-cases, inl, inr,
}
use advanced_cpp_p1g.Base.Fault.{◌>>=◌}
use advanced_cpp_p1g.Base.Int.{ℤ, negsuc}

pub data FeedType : Type 0 where
  bid ask execution unknown : FeedType

pub record FeedEvent {ℓ} (D : Type ℓ) : Type ℓ where
  pub type : FeedType
  pub price : D
  pub quantity : ℤ
  pub order_id : ℤ

abbrev pub Line : Type 0
Line = List ℕ

-- line.empty() || line[0] == '#'
abbrev pub is_skipped : Line → Bool
is_skipped [] = true
is_skipped (c ∷ cs) = c == 35

pub record Reader {ℓ} (D S : Type ℓ) : Type ℓ where
  pub open_line : Line → S
  pub word : S → String × S
  pub double : S → Option (D × S)
  pub int : S → Option (ℤ × S)

module _ {ℓ} {D S : Type ℓ} (zero_price : D) (r : Reader D S) where
  -- {FeedType::BID, price, qty}, with the default order id, if both numbers are there.
  abbrev pub quote_event : FeedType → S → Option (FeedEvent D)
  quote_event type s = do
    (price, s₁) ← r.double s
    (qty, s₂) ← r.int s₁
    some (record { type = type; price = price; quantity = qty; order_id = negsuc 0 })

  abbrev pub execution_event : S → Option (FeedEvent D)
  execution_event s = do
    (order_id, s₁) ← r.int s
    (filled, s₂) ← r.int s₁
    some (record { type = execution; price = zero_price; quantity = filled; order_id = order_id })

  -- The event of a line; `none` if nothing is pushed.
  abbrev pub typed_event : String × S → Option (FeedEvent D)
  typed_event (word, s) =
      if str_eq word "BID"
      then quote_event bid s
      else if str_eq word "ASK"
      then quote_event ask s
      else if str_eq word "EXECUTION"
      then execution_event s
      else none

  abbrev pub line_event : Line → Option (FeedEvent D)
  line_event line = if is_skipped line then none else typed_event (r.word (r.open_line line))

  abbrev pub with_event : Option (FeedEvent D) → List (FeedEvent D) → List (FeedEvent D)
  with_event none events = events
  with_event (some e) events = e ∷ events

  unfoldable pub read_lines : List Line → List (FeedEvent D)
  read_lines [] = []
  read_lines (line ∷ lines) = with_event (line_event line) (read_lines lines)

  -- `none`: the file does not open.
  unfoldable pub load_feed : Option (List Line) → List (FeedEvent D)
  load_feed none = []
  load_feed (some lines) = read_lines lines

  -- A quote, with no order id, or a fill, with no price.
  abbrev pub IsKnown : FeedEvent D → Type ℓ
  IsKnown e =
      (((e.type ≡ bid) ⊎ (e.type ≡ ask)) × (e.order_id ≡ negsuc 0))
      ⊎ ((e.type ≡ execution) × (e.price ≡ zero_price))

  abbrev pub MaybeKnown : Option (FeedEvent D) → Type ℓ
  MaybeKnown none = Unit
  MaybeKnown (some e) = IsKnown e

  quote_event-known :
      (type : FeedType) (s : S) → (type ≡ bid) ⊎ (type ≡ ask) → MaybeKnown (quote_event type s)
  quote_event-known type s h = elim (Option-cases (r.double s)) [
    | inl e ↦ rw e tt
    | inr ((price, s₁), e) ↦ elim (Option-cases (r.int s₁)) [
      | inl d ↦ rw (e, d) tt
      | inr ((qty, s₂), d) ↦ rw (e, d) (inl (h, refl))
    ]
  ]

  execution_event-known : (s : S) → MaybeKnown (execution_event s)
  execution_event-known s = elim (Option-cases (r.int s)) [
    | inl e ↦ rw e tt
    | inr ((id, s₁), e) ↦ elim (Option-cases (r.int s₁)) [
      | inl d ↦ rw (e, d) tt
      | inr ((qty, s₂), d) ↦ rw (e, d) (inr (refl, refl))
    ]
  ]

  typed_event-known : (x : String × S) → MaybeKnown (typed_event x)
  typed_event-known (word, s) = elim (Bool-cases (str_eq word "BID")) [
    | inl e ↦ rw e (quote_event-known bid s (inl refl))
    | inr e ↦ elim (Bool-cases (str_eq word "ASK")) [
      | inl d ↦ rw (e, d) (quote_event-known ask s (inr refl))
      | inr d ↦ elim (Bool-cases (str_eq word "EXECUTION")) [
        | inl c ↦ rw (e, d, c) (execution_event-known s)
        | inr c ↦ rw (e, d, c) tt
      ]
    ]
  ]

  line_event-known : (line : Line) → MaybeKnown (line_event line)
  line_event-known line = elim (Bool-cases (is_skipped line)) [
    | inl e ↦ rw e tt
    | inr e ↦ rw e (typed_event-known (r.word (r.open_line line)))
  ]

  with_event_lem :
      (o : Option (FeedEvent D)) (events : List (FeedEvent D)) (n : ℕ)
      → MaybeKnown o
      → All IsKnown events × (length events ≤ n)
      → All IsKnown (with_event o events) × (length (with_event o events) ≤ suc n)
  with_event_lem none events n h k = (k.0, omega (arith, k.1))
  with_event_lem (some e) events n h k = ((h, k.0), omega (arith, k.1))

  read_lines_lem :
      (lines : List Line)
      → All IsKnown (read_lines lines) × (length (read_lines lines) ≤ length lines)
  unfolding read_lines
  read_lines_lem [] = (tt, omega arith)
  read_lines_lem (line ∷ lines) =
      with_event_lem (line_event line) (read_lines lines) (length lines) (line_event-known line)
        (read_lines_lem lines)

  -- Whatever the stream extracts, a feed holds at most one event a line, and each of them is a bid or
  -- an ask with no order id or an execution with no price; no event is of unknown type.
  pub load_feed_lem :
      (lines : List Line)
      → All IsKnown (load_feed (some lines)) × (length (load_feed (some lines)) ≤ length lines)
  unfolding load_feed
  load_feed_lem lines = read_lines_lem lines
