-- ===== src/PriceHits/Sent.antt =====
-- Whom the prices are sent to, and what comes of an order for a price that was sent.
use advanced_cpp_p1g.Base.{
  ℕ, zero, suc, ◌≡◌, refl, sym, ap, subst, ◌∙◌, inl, inr, some, List, [], ◌∷◌, ◌++◌, append-nil,
  append_assoc, map, get_elem?, set, nat_eq, arith, Option-cases,
}
use advanced_cpp_p1g.Base.Text.{Bytes}
use advanced_cpp_p1g.Base.Int.{ℤ}
use advanced_cpp_p1g.PriceHits.Clients.{
  HandlerThread, registering, receiving, finished, ClientInfo, Net, NetEvent, accepted,
  accept_failed, received, hung_up, stamp, send_price, text_in, send_all, no_clients, add_client,
  stamp_price, no_bytes, close_client, take_bytes, handle_client, price_message, send_to_all,
  net_step, net_run,
}

abbrev pub sockets : List ClientInfo → List ℕ
sockets [] = []
sockets (c ∷ cs) = c.socket ∷ sockets cs

-- The sockets that accept returned, in order.
abbrev pub accepted_in {ℓ κ} : {Time : Type ℓ} {F : Type κ} → List (NetEvent Time F) → List ℕ
accepted_in [] = []
accepted_in (accepted fd ∷ es) = fd ∷ accepted_in es
accepted_in (accept_failed ∷ es) = accepted_in es
accepted_in (received i bytes ∷ es) = accepted_in es
accepted_in (hung_up i ∷ es) = accepted_in es
accepted_in (stamp now ∷ es) = accepted_in es
accepted_in (send_price price ∷ es) = accepted_in es

pub sockets-append : (xs ys : List ClientInfo) → sockets (xs ++ ys) ≡ sockets xs ++ sockets ys
sockets-append [] ys = refl
sockets-append (x ∷ xs) ys = ap (λ t. x.socket ∷ t) (sockets-append xs ys)

sockets-set :
    (cs : List ClientInfo) (i : ℕ) (c d : ClientInfo)
    → get_elem? cs i ≡ some c
    → d.socket ≡ c.socket
    → sockets (set cs i d) ≡ sockets cs
sockets-set [] i c d e h = refl
sockets-set (x ∷ cs) zero c d e h = ground (arith, e, h)
sockets-set (x ∷ cs) (suc i) c d e h = ap (λ t. x.socket ∷ t) (sockets-set cs i c d e h)

pub send_all-sockets :
    (id : ℕ) (message : Bytes) (cs : List ClientInfo)
    → send_all id message cs
      ≡ map (λ fd. record { socket = fd; id = id; message = message }) (sockets cs)
send_all-sockets id message [] = refl
send_all-sockets id message (c ∷ cs) =
    ap (λ t. record { socket = c.socket; id = id; message = message } ∷ t)
      (send_all-sockets id message cs)

module _ {ℓ} {Time : Type ℓ} where
  -- Nothing that the prices depend on has changed.
  abbrev pub Keeps : Net Time → Net Time → Type ℓ
  Keeps n n₁ =
      (sockets n₁.clients ≡ sockets n.clients)
      × (n₁.server ≡ n.server)
      × (n₁.unsent ≡ n.unsent)
      × (n₁.sendings ≡ n.sendings)

  no_bytes-Keeps :
      (n : Net Time) (i : ℕ) (c : ClientInfo) (t : HandlerThread)
      → get_elem? n.clients i ≡ some c
      → Keeps n (no_bytes n i c t)
  no_bytes-Keeps n i c registering e =
      (sockets-set n.clients i c (record c { client_thread = finished }) e refl, refl, refl, refl)
  no_bytes-Keeps n i c receiving e =
      (sockets-set n.clients i c (record c { client_thread = finished }) e refl, refl, refl, refl)
  no_bytes-Keeps n i c finished e = (refl, refl, refl, refl)

  -- A client that hangs up stays in the list.
  pub close_client-Keeps : (n : Net Time) (i : ℕ) → Keeps n (close_client n i)
  unfolding close_client
  close_client-Keeps n i = elim (Option-cases (get_elem? n.clients i)) [
    | inl e ↦
        let same : close_client n i ≡ n = rw (e, close_client) refl in
        subst (Keeps n) (sym same) (refl, refl, refl, refl)
    | inr (c, e) ↦
        let same : close_client n i ≡ no_bytes n i c c.client_thread = rw (e, close_client) refl in
        subst (Keeps n) (sym same) (no_bytes-Keeps n i c c.client_thread e)
  ]

  stamp_price_sockets : (n : Net Time) (now : Time) → (stamp_price n now).clients ≡ n.clients
  unfolding stamp_price
  stamp_price_sockets n now = ground arith

  module _ (atoi : Bytes → ℤ) where
    sockets-take_bytes :
        (n : Net Time) (i : ℕ) (bytes : Bytes) (c : ClientInfo) (t : HandlerThread)
        → get_elem? n.clients i ≡ some c
        → sockets (take_bytes atoi n i bytes c t).clients ≡ sockets n.clients
    sockets-take_bytes n i bytes c registering e =
        sockets-set n.clients i c (record c { name = text_in bytes; client_thread = receiving }) e
          refl
    sockets-take_bytes n i bytes c receiving e = refl
    sockets-take_bytes n i bytes c finished e = refl

    pub sockets-handle_client :
        (n : Net Time) (i : ℕ) (bytes : Bytes)
        → sockets (handle_client atoi n i bytes).clients ≡ sockets n.clients
    unfolding handle_client
    sockets-handle_client n i bytes = elim (Option-cases (get_elem? n.clients i)) [
      | inl e ↦
          let same : handle_client atoi n i bytes ≡ n = rw (e, handle_client) refl in
          ap (λ m. sockets m.clients) same
      | inr (c, e) ↦
          let same : handle_client atoi n i bytes ≡ take_bytes atoi n i bytes c c.client_thread =
            rw (e, handle_client) refl in
          ap (λ m. sockets m.clients) same ∙ sockets-take_bytes n i bytes c c.client_thread e
    ]

    module _ {κ} {F : Type κ} (show_id : ℕ → Bytes) (show_price : F → Bytes) where
      sockets-send_to_all :
          (n : Net Time) (price : F)
          → (send_to_all atoi show_id show_price n price).clients ≡ n.clients
      unfolding send_to_all
      sockets-send_to_all n price = ground arith

      sockets-net_run :
          (n : Net Time) (es : List (NetEvent Time F))
          → sockets (net_run atoi show_id show_price n es).clients
            ≡ sockets n.clients ++ accepted_in es
      unfolding net_run net_step add_client
      sockets-net_run n [] = sym (append-nil (sockets n.clients))
      sockets-net_run n (accepted fd ∷ es) =
          sockets-net_run (add_client n fd) es
          ∙ ap (λ t. t ++ accepted_in es)
              (sockets-append n.clients
                (record { socket = fd; name = []; client_thread = registering } ∷ []))
          ∙ append_assoc (sockets n.clients) (fd ∷ []) (accepted_in es)
      sockets-net_run n (accept_failed ∷ es) = sockets-net_run n es
      sockets-net_run n (received i bytes ∷ es) =
          sockets-net_run (handle_client atoi n i bytes) es
          ∙ ap (λ t. t ++ accepted_in es) (sockets-handle_client n i bytes)
      sockets-net_run n (hung_up i ∷ es) =
          sockets-net_run (close_client n i) es
          ∙ ap (λ t. t ++ accepted_in es) (close_client-Keeps n i).0
      sockets-net_run n (stamp now ∷ es) =
          sockets-net_run (stamp_price n now) es
          ∙ ap (λ t. sockets t ++ accepted_in es) (stamp_price_sockets n now)
      sockets-net_run n (send_price price ∷ es) =
          sockets-net_run (send_to_all atoi show_id show_price n price) es
          ∙ ap (λ t. sockets t ++ accepted_in es) (sockets-send_to_all n price)

      -- After any events, a price that was stamped is sent once to every socket for each time that
      -- accept has returned it, in that order: also to those whose client has hung up since, and
      -- which are closed.
      pub send_to_all-accepted_in :
          (es : List (NetEvent Time F)) (id : ℕ) (price : F)
          → (net_run atoi show_id show_price no_clients es).unsent ≡ some id
          → (send_to_all atoi show_id show_price
              (net_run atoi show_id show_price no_clients es)
              price).sendings
            ≡ (net_run atoi show_id show_price no_clients es).sendings
              ++ map
                  (λ fd. record {
                    socket = fd;
                    id = id;
                    message = price_message show_id show_price id price;
                  })
                  (accepted_in es)
      unfolding send_to_all
      send_to_all-accepted_in es id price e =
          let n = net_run atoi show_id show_price no_clients es in
          rw e (
            ap (λ t. n.sendings ++ t)
              (send_all-sockets id (price_message show_id show_price id price) n.clients
                ∙ ap (map _) (sockets-net_run no_clients es)))
