-- ===== src/PriceHits/Closed.antt =====
-- The sockets that are closed, and what is sent to them.
pub mod Counts
use advanced_cpp_p1g.Base.{
  ℕ, zero, suc, ◌+◌, ◌-◌, ◌<◌, ◌≡◌, refl, sym, ap, subst, ◌∙◌, inl, inr, Bool, true, false, some,
  List, [], ◌∷◌, ◌++◌, get_elem?, set, if◌then◌else◌, ◌==◌, arith, Option-cases,
}
use advanced_cpp_p1g.Base.Fault.{some-inj}
use advanced_cpp_p1g.Base.Text.{Bytes}
use advanced_cpp_p1g.Base.Int.{ℤ}
use advanced_cpp_p1g.PriceHits.Clients.{
  HandlerThread, registering, receiving, finished, ClientInfo, Sending, Net, NetEvent, accepted,
  accept_failed, received, hung_up, stamp, send_price, text_in, remove_one, send_all, no_clients,
  add_client, stamp_price, close_socket, no_bytes, close_client, take_bytes, handle_client,
  price_message, send_to_all, net_step, net_run,
}
use advanced_cpp_p1g.PriceHits.Closed.Counts.{
  times, gone, sends_to, goes_on, live, times-remove_one, live-append, live-set, live-at,
  sends_to-append, sends_to-send_all,
}

module _ {ℓ} {Time : Type ℓ} where
  -- The open sockets are those of the clients whose threads go on.
  record AreOpen (n : Net Time) : Type 0 where
    counted : (fd : ℕ) → times fd n.open_sockets ≡ live fd n.clients

  AreOpen-same :
      (n n₁ : Net Time)
      → n₁.clients ≡ n.clients
      → n₁.open_sockets ≡ n.open_sockets
      → AreOpen n
      → AreOpen n₁
  AreOpen-same n n₁ e f v = record {
    counted = λ fd. ap (times fd) f ∙ v.counted fd ∙ sym (ap (live fd) e);
  }

  add-AreOpen : (n : Net Time) (fd : ℕ) → AreOpen n → AreOpen (add_client n fd)
  unfolding add_client
  add-AreOpen n other v = record {
    counted = λ fd. ground (
      arith,
      v.counted fd,
      live-append fd n.clients
          (record { socket = other; name = []; client_thread = registering } ∷ []),
    );
  }

  close-AreOpen :
      (n : Net Time) (i : ℕ) (c : ClientInfo)
      → get_elem? n.clients i ≡ some c
      → goes_on c.client_thread ≡ 1
      → AreOpen n
      → AreOpen (close_socket n i c)
  close-AreOpen n i c e h v = record {
    counted = λ fd. ground (
      arith,
      v.counted fd,
      v.counted c.socket,
      live-at n.clients i c e h,
      times-remove_one fd c.socket n.open_sockets,
      live-set fd n.clients i c (record c { client_thread = finished }) e refl,
      h,
    );
  }

  no_bytes-AreOpen :
      (n : Net Time) (i : ℕ) (c : ClientInfo) (t : HandlerThread)
      → get_elem? n.clients i ≡ some c
      → c.client_thread ≡ t
      → AreOpen n
      → AreOpen (no_bytes n i c t)
  no_bytes-AreOpen n i c registering e h v = close-AreOpen n i c e (ap goes_on h) v
  no_bytes-AreOpen n i c receiving e h v = close-AreOpen n i c e (ap goes_on h) v
  no_bytes-AreOpen n i c finished e h v = v

  close_client-AreOpen : (n : Net Time) (i : ℕ) → AreOpen n → AreOpen (close_client n i)
  unfolding close_client
  close_client-AreOpen n i v = elim (Option-cases (get_elem? n.clients i)) [
    | inl e ↦
        let same : close_client n i ≡ n = rw (e, close_client) refl in subst AreOpen (sym same) v
    | inr (c, e) ↦
        let same : close_client n i ≡ no_bytes n i c c.client_thread = rw (e, close_client) refl in
        subst AreOpen (sym same) (no_bytes-AreOpen n i c c.client_thread e refl v)
  ]

  stamp-AreOpen : (n : Net Time) (now : Time) → AreOpen n → AreOpen (stamp_price n now)
  unfolding stamp_price
  stamp-AreOpen n now v = AreOpen-same n (stamp_price n now) (ground arith) (ground arith) v

  module _ (atoi : Bytes → ℤ) where
    take_bytes-AreOpen :
        (n : Net Time) (i : ℕ) (bytes : Bytes) (c : ClientInfo) (t : HandlerThread)
        → get_elem? n.clients i ≡ some c
        → c.client_thread ≡ t
        → AreOpen n
        → AreOpen (take_bytes atoi n i bytes c t)
    take_bytes-AreOpen n i bytes c registering e h v = record {
      counted = λ fd. ground (
        arith,
        v.counted fd,
        live-set fd n.clients i c (record c { name = text_in bytes; client_thread = receiving }) e
            refl,
        ap goes_on h,
      );
    }
    take_bytes-AreOpen n i bytes c receiving e h v = record { counted = v.counted }
    take_bytes-AreOpen n i bytes c finished e h v = v

    handle_client-AreOpen :
        (n : Net Time) (i : ℕ) (bytes : Bytes) → AreOpen n → AreOpen (handle_client atoi n i bytes)
    unfolding handle_client
    handle_client-AreOpen n i bytes v = elim (Option-cases (get_elem? n.clients i)) [
      | inl e ↦
          let same : handle_client atoi n i bytes ≡ n = rw (e, handle_client) refl in
          subst AreOpen (sym same) v
      | inr (c, e) ↦
          let same : handle_client atoi n i bytes ≡ take_bytes atoi n i bytes c c.client_thread =
            rw (e, handle_client) refl in
          subst AreOpen (sym same) (take_bytes-AreOpen n i bytes c c.client_thread e refl v)
    ]

    module _ {κ} {F : Type κ} (show_id : ℕ → Bytes) (show_price : F → Bytes) where
      send-AreOpen :
          (n : Net Time) (price : F)
          → AreOpen n
          → AreOpen (send_to_all atoi show_id show_price n price)
      unfolding send_to_all
      send-AreOpen n price v =
          AreOpen-same n (send_to_all atoi show_id show_price n price) (ground arith) (ground arith)
            v

      net_run-AreOpen :
          (n : Net Time) (es : List (NetEvent Time F))
          → AreOpen n
          → AreOpen (net_run atoi show_id show_price n es)
      unfolding net_run net_step
      net_run-AreOpen n [] v = v
      net_run-AreOpen n (accepted fd ∷ es) v =
          net_run-AreOpen (add_client n fd) es (add-AreOpen n fd v)
      net_run-AreOpen n (accept_failed ∷ es) v = net_run-AreOpen n es v
      net_run-AreOpen n (received i bytes ∷ es) v =
          net_run-AreOpen (handle_client atoi n i bytes) es (handle_client-AreOpen n i bytes v)
      net_run-AreOpen n (hung_up i ∷ es) v =
          net_run-AreOpen (close_client n i) es (close_client-AreOpen n i v)
      net_run-AreOpen n (stamp now ∷ es) v =
          net_run-AreOpen (stamp_price n now) es (stamp-AreOpen n now v)
      net_run-AreOpen n (send_price price ∷ es) v =
          net_run-AreOpen (send_to_all atoi show_id show_price n price) es (send-AreOpen n price v)

      -- After any events, a price that was stamped is given to each socket once for each connection
      -- that is open on it, and once more for each client that had it and whose thread has ended.
      pub sends_to-send_to_all :
          (es : List (NetEvent Time F)) (n : Net Time) (id : ℕ) (price : F) (fd : ℕ)
          → net_run atoi show_id show_price no_clients es ≡ n
          → n.unsent ≡ some id
          → sends_to fd (send_to_all atoi show_id show_price n price).sendings
            ≡ sends_to fd n.sendings + (times fd n.open_sockets + gone fd n.clients)
      unfolding send_to_all
      sends_to-send_to_all es n id price fd reached stamped =
          let v =
            subst AreOpen reached
              (net_run-AreOpen no_clients es (record { counted = λ fd. refl })) in
          let message = price_message show_id show_price id price in
          let same : (send_to_all atoi show_id show_price n price).sendings
              ≡ n.sendings ++ send_all id message n.clients =
            rw (send_to_all, stamped) refl in
          ap (sends_to fd) same
          ∙ omega (
            arith,
            sends_to-append fd n.sendings (send_all id message n.clients),
            sends_to-send_all fd id message n.clients,
            v.counted fd,
          )
