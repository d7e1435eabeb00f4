-- ===== src/Challenge/Winner.antt =====
-- Who wins a challenge, and what the clients are told.
use advanced_cpp_p1g.Base.Text.{same_bytes, bytes_eq}
use mathlib.Core.Bool.{false≢true}
use advanced_cpp_p1g.Base.{
  ◌≡◌, refl, inl, inr, Bool, true, false, Option, none, some, List, [], ◌∷◌, ◌&&◌, not, find,
  if◌then◌else◌, Bool-cases,
}
use advanced_cpp_p1g.Base.Int.{eqb_ℤ}
use advanced_cpp_p1g.Challenge.{
  Challenge, Response, response_mark, incorrect, accepts, prices_match, process_order, process_all,
}

and_left : (a b : Bool) → (a && b) ≡ true → a ≡ true
and_left true b e = refl
and_left false b e = e

and_right : (a b : Bool) → (a && b) ≡ true → b ≡ true
and_right true b e = e
and_right false b e = absurd (false≢true e)

shut : (h i b m : Bool) → b ≡ true → (h && ((i && not b) && m)) ≡ false
shut false i true m e = refl
shut true false true m e = refl
shut true true true m e = refl
shut h i false m e = absurd (false≢true e)

module _ {ℓ} {D : Type ℓ} (close : D → D → Bool) where
  -- A response in the right format that passes every test.
  abbrev pub wins : Challenge D → Response D → Bool
  wins c r = same_bytes r.header response_mark && accepts close c r

  -- The first response that wins.
  abbrev pub first_winner : Challenge D → List (Response D) → Option (Response D)
  first_winner c [] = none
  first_winner c (r ∷ rs) = if wins c r then some r else first_winner c rs

  -- The challenge with that winner, if there is one.
  abbrev pub declare : Challenge D → Option (Response D) → Challenge D
  declare c none = c
  declare c (some r) = record c { winner_declared = true; winner_name = r.client_name }

  one :
      (c : Challenge D) (r : Response D)
      → (process_order close c r).1 ≡ (if wins c r then declare c (some r) else c)
  unfolding process_order
  one c r = elim (Bool-cases (same_bytes r.header response_mark)) [
    | inl h ↦ elim (Bool-cases (accepts close c r)) [
      | inl g ↦ rw (h, g) refl
      | inr g ↦ rw (h, g) refl
    ]
    | inr h ↦ rw h refl
  ]

  closed : (c : Challenge D) (r : Response D) → c.winner_declared ≡ true → wins c r ≡ false
  closed c r e =
      shut (same_bytes r.header response_mark) (eqb_ℤ c.challenge_id r.challenge_id)
        c.winner_declared
        (same_bytes c.target_ticker r.ticker && prices_match close r (find r.ticker c.market_data))
        e

  -- Once a winner is declared nothing changes any more.
  pub settled :
      (c : Challenge D) (rs : List (Response D))
      → c.winner_declared ≡ true
      → process_all close c rs ≡ c
  unfolding process_all
  settled c [] e = refl
  settled c (r ∷ rs) e = rw (one c r, closed c r e) (settled c rs e)

  -- Of any sequence of responses to a challenge without a winner, the first one that passes every
  -- test makes its client the winner; the later ones change nothing, and neither do the others.
  pub process_all-first_winner :
      (c : Challenge D) (rs : List (Response D))
      → c.winner_declared ≡ false
      → process_all close c rs ≡ declare c (first_winner c rs)
  unfolding process_all
  process_all-first_winner c [] e = refl
  process_all-first_winner c (r ∷ rs) e = elim (Bool-cases (wins c r)) [
    | inl h ↦ rw (one c r, h) (settled (declare c (some r)) rs refl)
    | inr h ↦ rw (one c r, h) (process_all-first_winner c rs e)
  ]

  -- Yet the response that makes its client the winner is answered INCORRECT, as every response with
  -- the right header is.
  pub winner_told_incorrect :
      (c : Challenge D) (r : Response D)
      → wins c r ≡ true
      → ((process_order close c r).1.winner_declared ≡ true)
        × ((process_order close c r).1.winner_name ≡ r.client_name)
        × ((process_order close c r).0 ≡ some incorrect)
  unfolding process_order
  winner_told_incorrect c r h =
      let headed = and_left (same_bytes r.header response_mark) (accepts close c r) h in
      let accepted = and_right (same_bytes r.header response_mark) (accepts close c r) h in
      rw (headed, accepted) (refl, refl, refl)
