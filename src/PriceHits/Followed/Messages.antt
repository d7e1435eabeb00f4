-- ===== src/PriceHits/Followed/Messages.antt =====
-- What a socket is sent, and what of the server it depends on.
use advanced_cpp_p1g.Base.{
  ℕ, suc, ◌≡◌, refl, sym, subst, ◌∙◌, inl, inr, Bool, true, false, none, some, List, [], ◌∷◌, ◌++◌,
  get_elem?, if◌then◌else◌, ◌==◌, arith, Option-cases, map,
}
use advanced_cpp_p1g.Base.Text.{Bytes}
use advanced_cpp_p1g.Base.Int.{ℤ, pos, negsuc}
use advanced_cpp_p1g.PriceHits.{Server, order, handle_known, handle_event}
use advanced_cpp_p1g.PriceHits.Clients.{
  HandlerThread, registering, receiving, finished, ClientInfo, Sending, Net, NetEvent, accepted,
  accept_failed, received, hung_up, stamp, send_price, text_in, send_all, take_bytes, handle_client,
}
use advanced_cpp_p1g.PriceHits.Sent.{sockets}

-- The messages that a socket is given, in order.
abbrev pub messages_to : ℕ → List Sending → List Bytes
messages_to fd [] = []
messages_to fd (x ∷ xs) =
    let rest = messages_to fd xs in if x.socket == fd then x.message ∷ rest else rest

-- The entries that are this socket.
abbrev pub only : ℕ → List ℕ → List ℕ
only fd [] = []
only fd (x ∷ xs) = let rest = only fd xs in if x == fd then x ∷ rest else rest

-- The prices that are sent: a price is drawn for each id that was stamped.
abbrev pub prices_sent {ℓ κ} : {Time : Type ℓ} {F : Type κ} → Bool → List (NetEvent Time F) → List F
prices_sent stamped [] = []
prices_sent stamped (accepted fd ∷ es) = prices_sent stamped es
prices_sent stamped (accept_failed ∷ es) = prices_sent stamped es
prices_sent stamped (received i bytes ∷ es) = prices_sent stamped es
prices_sent stamped (hung_up i ∷ es) = prices_sent stamped es
prices_sent stamped (stamp now ∷ es) = prices_sent true es
prices_sent true (send_price price ∷ es) = price ∷ prices_sent false es
prices_sent false (send_price price ∷ es) = prices_sent false es

abbrev pub numbered {κ} : {F : Type κ} → ℕ → List F → List (ℤ × F)
numbered k [] = []
numbered k (p ∷ ps) = (pos k, p) ∷ numbered (suc k) ps

pub messages_to-append :
    (fd : ℕ) (xs ys : List Sending)
    → messages_to fd (xs ++ ys) ≡ messages_to fd xs ++ messages_to fd ys
messages_to-append fd [] ys = refl
messages_to-append fd (x ∷ xs) ys = ground (arith, messages_to-append fd xs ys)

pub only-append : (fd : ℕ) (xs ys : List ℕ) → only fd (xs ++ ys) ≡ only fd xs ++ only fd ys
only-append fd [] ys = refl
only-append fd (x ∷ xs) ys = ground (arith, only-append fd xs ys)

pub messages_to-send_all :
    (fd id : ℕ) (message : Bytes) (cs : List ClientInfo)
    → messages_to fd (send_all id message cs) ≡ map (λ x. message) (only fd (sockets cs))
messages_to-send_all fd id message [] = refl
messages_to-send_all fd id message (c ∷ cs) = ground (arith, messages_to-send_all fd id message cs)

module _ {ℓ} {Time : Type ℓ} where
  -- Which id comes next, and whether it was stamped already.
  abbrev pub Waits : Bool → ℕ → Net Time → Type 0
  Waits false k n = (n.unsent ≡ none) × (n.server.price_id ≡ k)
  Waits true k n = (n.unsent ≡ some k) × (n.server.price_id ≡ suc k)

  -- The socket stands once among the clients.
  pub record Follows (fd : ℕ) (stamped : Bool) (k : ℕ) (n : Net Time) : Type 0 where
    pub once : only fd (sockets n.clients) ≡ fd ∷ []
    pub waits : Waits stamped k n

  pub Waits-same :
      (stamped : Bool) (k : ℕ) (n n₁ : Net Time)
      → n₁.unsent ≡ n.unsent
      → n₁.server.price_id ≡ n.server.price_id
      → Waits stamped k n
      → Waits stamped k n₁
  Waits-same false k n n₁ e f w = (e ∙ w.0, f ∙ w.1)
  Waits-same true k n n₁ e f w = (e ∙ w.0, f ∙ w.1)

  order_price_id :
      (s : Server Time) (client : Bytes) (id : ℤ)
      → (handle_event s (order client id)).price_id ≡ s.price_id
  unfolding handle_event handle_known
  order_price_id s client (pos id) = ground arith
  order_price_id s client (negsuc n) = refl

  module _ (atoi : Bytes → ℤ) where
    -- What a client's bytes leave alone.
    abbrev pub Stays : Net Time → Net Time → Type 0
    Stays n n₁ =
        (n₁.unsent ≡ n.unsent)
        × (n₁.server.price_id ≡ n.server.price_id)
        × (n₁.sendings ≡ n.sendings)

    take_bytes-Stays :
        (n : Net Time) (i : ℕ) (bytes : Bytes) (c : ClientInfo) (t : HandlerThread)
        → Stays n (take_bytes atoi n i bytes c t)
    take_bytes-Stays n i bytes c registering = (refl, refl, refl)
    take_bytes-Stays n i bytes c receiving =
        (refl, order_price_id n.server c.name (atoi (text_in bytes)), refl)
    take_bytes-Stays n i bytes c finished = (refl, refl, refl)

    pub handle_client-Stays :
        (n : Net Time) (i : ℕ) (bytes : Bytes) → Stays n (handle_client atoi n i bytes)
    unfolding handle_client
    handle_client-Stays n i bytes = elim (Option-cases (get_elem? n.clients i)) [
      | inl e ↦
          let same : handle_client atoi n i bytes ≡ n = rw (e, handle_client) refl in
          subst (Stays n) (sym same) (refl, refl, refl)
      | inr (c, e) ↦
          let same : handle_client atoi n i bytes ≡ take_bytes atoi n i bytes c c.client_thread =
            rw (e, handle_client) refl in
          subst (Stays n) (sym same) (take_bytes-Stays n i bytes c c.client_thread)
    ]
