-- ===== src/PriceClient/Trend.antt =====
-- The client's orders, for the messages of the server.
use advanced_cpp_p1g.Base.Text.{Bytes}
use advanced_cpp_p1g.Base.{
  ◌≡◌, ◌≢◌, refl, ap₂, inl, inr, Bool, true, false, Option, some, List, [], ◌∷◌, ◌++◌, ◌&&◌,
  if◌then◌else◌, arith, All, Bool-cases,
}
use advanced_cpp_p1g.Base.Int.{ℤ}
use advanced_cpp_p1g.PriceClient.{
  split_comma, Message, quote, momentum_of, order_for, respond, read_message, read_all,
  receive_and_respond,
}

split_comma-append :
    (front back : Bytes)
    → All (λ c. c ≢ b',') front
    → split_comma (front ++ (b',' ∷ back)) ≡ some (front, back)
unfolding split_comma
split_comma-append [] back h = refl
split_comma-append (c ∷ front) back h = ground (arith, h.0, split_comma-append front back h.1)

abbrev pub quotes {ℓ} : {F : Type ℓ} → List (ℤ × F) → List (Message F)
quotes [] = []
quotes ((id, price) ∷ ps) = quote id price ∷ quotes ps

module _ {ℓ} {F : Type ℓ} (lt : F → F → Bool) where
  -- Each price that is the last of three that rise, or that fall, all the way.
  abbrev pub moved : F → F → F → Bool
  moved a b c = if lt a b && lt b c then true else lt b a && lt c b

  abbrev pub orders_after : F → F → List (ℤ × F) → List ℤ
  orders_after a b [] = []
  orders_after a b ((id, c) ∷ ps) = (if moved a b c then id ∷ [] else []) ++ orders_after b c ps

  abbrev pub wanted : List (ℤ × F) → List ℤ
  wanted [] = []
  wanted ((i, a) ∷ []) = []
  wanted ((i, a) ∷ (j, b) ∷ ps) = orders_after a b ps

  order_for-moved :
      (id : ℤ) (a b c : F)
      → order_for id (momentum_of lt a b c) ≡ (if moved a b c then id ∷ [] else [])
  order_for-moved id a b c = elim (Bool-cases (lt a b && lt b c)) [
    | inl e ↦ rw e refl
    | inr e ↦ elim (Bool-cases (lt b a && lt c b)) [
      | inl d ↦ rw (e, d) refl
      | inr d ↦ rw (e, d) refl
    ]
  ]

  respond-three :
      (x a b : F) (ps : List (ℤ × F))
      → respond lt (x ∷ a ∷ b ∷ []) (quotes ps)
        ≡ record { orders = orders_after a b ps; threw = false }
  unfolding respond
  respond-three x a b [] = refl
  respond-three x a b ((id, c) ∷ ps) =
      rw (respond-three a b c ps) (rw (order_for-moved id a b c) refl)

  respond-two :
      (a b : F) (ps : List (ℤ × F))
      → respond lt (a ∷ b ∷ []) (quotes ps) ≡ record { orders = orders_after a b ps; threw = false }
  unfolding respond
  respond-two a b [] = refl
  respond-two a b ((id, c) ∷ ps) = rw (respond-three a b c ps) (rw (order_for-moved id a b c) refl)

  respond-wanted :
      (ps : List (ℤ × F)) → respond lt [] (quotes ps) ≡ record { orders = wanted ps; threw = false }
  unfolding respond
  respond-wanted [] = refl
  respond-wanted ((i, a) ∷ []) = refl
  respond-wanted ((i, a) ∷ (j, b) ∷ ps) = rw (respond-two a b ps) refl

-- What the server needs to print and the client to read: the text of an id has no comma, and both
-- numbers are read back.
pub record AreReadBack {ℓ} {F : Type ℓ} (stoi : Bytes → Option ℤ) (stof : Bytes → Option F)
    (show_id : ℤ → Bytes) (show_price : F → Bytes) : Type ℓ where
  pub no_comma : (i : ℤ) → All (λ c. c ≢ b',') (show_id i)
  pub id_back : (i : ℤ) → stoi (show_id i) ≡ some i
  pub price_back : (p : F) → stof (show_price p) ≡ some p

-- to_string(id) + "," + to_string(price), for each price
abbrev pub broadcast {ℓ} : {F : Type ℓ} → (ℤ → Bytes) → (F → Bytes) → List (ℤ × F) → List Bytes
broadcast show_id show_price [] = []
broadcast show_id show_price ((id, price) ∷ ps) =
    (show_id id ++ (b',' ∷ show_price price)) ∷ broadcast show_id show_price ps

module _ {ℓ} {F : Type ℓ} (lt : F → F → Bool) (stoi : Bytes → Option ℤ) (stof : Bytes → Option F)
    (show_id : ℤ → Bytes) (show_price : F → Bytes)
    (b : AreReadBack stoi stof show_id show_price) where
  read_all-broadcast :
      (ps : List (ℤ × F)) → read_all stoi stof (broadcast show_id show_price ps) ≡ quotes ps
  unfolding read_message
  read_all-broadcast [] = refl
  read_all-broadcast ((id, price) ∷ ps) =
      ap₂ (λ x y. x ∷ y)
        (rw
          (
            split_comma-append (show_id id) (show_price price) (b.no_comma id),
            b.id_back id,
            b.price_back price,
          )
          refl)
        (read_all-broadcast ps)

  -- For the messages of a server whose numbers are read back, the client never throws, and it orders
  -- exactly the prices that end a run of three prices that rise all the way or fall all the way, in
  -- order.
  pub receive_and_respond-wanted :
      (ps : List (ℤ × F))
      → receive_and_respond stoi stof lt (broadcast show_id show_price ps)
        ≡ record { orders = wanted lt ps; threw = false }
  unfolding receive_and_respond
  receive_and_respond-wanted ps = rw (read_all-broadcast ps) (respond-wanted lt ps)
