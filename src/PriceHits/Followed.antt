-- ===== src/PriceHits/Followed.antt =====
-- A client of Phase_2/hft_client.cpp at the server: what it is sent, and the orders that it makes of it.
pub mod Messages
use advanced_cpp_p1g.Base.{
  ℕ, suc, ◌≡◌, ◌≢◌, refl, sym, ap, ap₂, subst, ◌∙◌, inl, inr, Bool, true, false, Option, none, some,
  List, [], ◌∷◌, ◌++◌, append_assoc, append-nil, get_elem?, if◌then◌else◌, ◌==◌, arith, All,
  Option-cases, map,
}
use advanced_cpp_p1g.Base.Text.{Bytes}
use advanced_cpp_p1g.Base.Int.{ℤ, pos, negsuc}
use advanced_cpp_p1g.PriceHits.{Server, order, broadcast_price, handle_known, handle_event}
use advanced_cpp_p1g.PriceHits.Clients.{
  HandlerThread, registering, receiving, finished, ClientInfo, Sending, Net, NetEvent, accepted,
  accept_failed, received, hung_up, stamp, send_price, text_in, send_all, no_clients, add_client,
  stamp_price, close_client, take_bytes, handle_client, price_message, send_to_all, net_step,
  net_run,
}
use advanced_cpp_p1g.PriceHits.Sent.{
  sockets, accepted_in, sockets-append, close_client-Keeps, sockets-handle_client,
}
use advanced_cpp_p1g.PriceClient.{receive_and_respond}
use advanced_cpp_p1g.PriceClient.Trend.{AreReadBack, broadcast, wanted, receive_and_respond-wanted}
use advanced_cpp_p1g.PriceHits.Followed.Messages.{
  messages_to, prices_sent, numbered, Follows, only, messages_to-append, only-append,
  messages_to-send_all, Waits, Waits-same, Stays, handle_client-Stays,
}

module _ {ℓ} {Time : Type ℓ} where
  module _ (atoi : Bytes → ℤ) where
    module _ {κ} {F : Type κ} (show : ℤ → Bytes) (show_price : F → Bytes) (fd : ℕ) where
      abbrev run_on : Net Time → List (NetEvent Time F) → Net Time
      run_on n es = net_run atoi (λ id. show (pos id)) show_price n es

      accept-Follows :
          (stamped : Bool) (k other : ℕ) (n : Net Time)
          → other ≢ fd
          → Follows fd stamped k n
          → Follows fd stamped k (add_client n other)
      unfolding add_client
      accept-Follows stamped k other n ne v =
          let new : ClientInfo = record {
            socket = other;
            name = [];
            client_thread = registering;
          } in
          let none_new : only fd (other ∷ []) ≡ [] = ground (arith, ne) in
          record {
            once =
                ap (only fd) (sockets-append n.clients (new ∷ []))
                ∙ only-append fd (sockets n.clients) (other ∷ [])
                ∙ ap₂ (λ x y. x ++ y) v.once none_new;
            waits = Waits-same stamped k n (add_client n other) refl refl v.waits;
          }

      received-Follows :
          (stamped : Bool) (k i : ℕ) (bytes : Bytes) (n : Net Time)
          → Follows fd stamped k n
          → Follows fd stamped k (handle_client atoi n i bytes)
      received-Follows stamped k i bytes n v =
          let (unsent, price_id, sendings) = handle_client-Stays atoi n i bytes in
          record {
            once = ap (only fd) (sockets-handle_client atoi n i bytes) ∙ v.once;
            waits = Waits-same stamped k n (handle_client atoi n i bytes) unsent price_id v.waits;
          }

      hung_up-Follows :
          (stamped : Bool) (k i : ℕ) (n : Net Time)
          → Follows fd stamped k n
          → Follows fd stamped k (close_client n i)
      hung_up-Follows stamped k i n v =
          let (same_sockets, server, unsent, sendings) = close_client-Keeps n i in
          record {
            once = ap (only fd) same_sockets ∙ v.once;
            waits =
                Waits-same stamped k n (close_client n i) unsent (ap (λ s. s.price_id) server)
                  v.waits;
          }

      stamp-Follows :
          (stamped : Bool) (k : ℕ) (now : Time) (n : Net Time)
          → Follows fd stamped k n
          → Follows fd true k (stamp_price n now) × ((stamp_price n now).sendings ≡ n.sendings)
      unfolding stamp_price broadcast_price
      stamp-Follows false k now n v =
          let same : stamp_price n now ≡ record n {
            server = broadcast_price n.server now;
            unsent = some n.server.price_id;
          } =
            rw (v.waits.0, stamp_price) refl in
          subst (λ m. Follows fd true k m × (m.sendings ≡ n.sendings)) (sym same)
            (record { once = v.once; waits = (ap some v.waits.1, omega (arith, v.waits.1)) }, refl)
      stamp-Follows true k now n v =
          let same : stamp_price n now ≡ n = simp (stamp_price, v.waits.0) refl in
          subst (λ m. Follows fd true k m × (m.sendings ≡ n.sendings)) (sym same) (v, refl)

      send-Follows :
          (k : ℕ) (price : F) (n : Net Time)
          → Follows fd true k n
          → Follows fd false (suc k) (send_to_all atoi (λ id. show (pos id)) show_price n price)
            × (messages_to fd (send_to_all atoi (λ id. show (pos id)) show_price n price).sendings
                ≡ messages_to fd n.sendings
                  ++ (price_message (λ id. show (pos id)) show_price k price ∷ []))
      unfolding send_to_all
      send-Follows k price n v =
          let message = price_message (λ (id : ℕ). show (pos id)) show_price k price in
          let sent = n.sendings ++ send_all k message n.clients in
          let same : send_to_all atoi (λ id. show (pos id)) show_price n price
              ≡ record n { unsent = none; sendings = sent } =
            rw (v.waits.0, send_to_all) refl in
          subst
            (λ m.
              Follows fd false (suc k) m
              × (messages_to fd m.sendings ≡ messages_to fd n.sendings ++ (message ∷ [])))
            (sym same)
            (
              record { once = v.once; waits = (refl, v.waits.1) },
              messages_to-append fd n.sendings (send_all k message n.clients)
                  ∙ ap (λ t. messages_to fd n.sendings ++ t)
                      (messages_to-send_all fd k message n.clients
                        ∙ ap (map (λ x. message)) v.once),
            )

      send_early :
          (k : ℕ) (price : F) (n : Net Time)
          → Follows fd false k n
          → send_to_all atoi (λ id. show (pos id)) show_price n price ≡ n
      unfolding send_to_all
      send_early k price n v = simp (send_to_all, v.waits.0) refl

      messages_to-run_on :
          (es : List (NetEvent Time F)) (n : Net Time) (k : ℕ) (stamped : Bool)
          → Follows fd stamped k n
          → All (λ x. x ≢ fd) (accepted_in es)
          → messages_to fd (run_on n es).sendings
            ≡ messages_to fd n.sendings
              ++ broadcast show show_price (numbered k (prices_sent stamped es))
      unfolding net_run net_step
      messages_to-run_on [] n k stamped v h = sym (append-nil (messages_to fd n.sendings))
      messages_to-run_on (accepted other ∷ es) n k stamped v h =
          messages_to-run_on es (add_client n other) k stamped
            (accept-Follows stamped k other n h.0 v) h.1
          ∙ unfold add_client in refl
      messages_to-run_on (accept_failed ∷ es) n k stamped v h =
          messages_to-run_on es n k stamped v h
      messages_to-run_on (received i bytes ∷ es) n k stamped v h =
          let (unsent, price_id, same) = handle_client-Stays atoi n i bytes in
          messages_to-run_on es (handle_client atoi n i bytes) k stamped
            (received-Follows stamped k i bytes n v) h
          ∙ ap
              (λ t.
                messages_to fd t ++ broadcast show show_price (numbered k (prices_sent stamped es)))
              same
      messages_to-run_on (hung_up i ∷ es) n k stamped v h =
          let (same_sockets, server, unsent, same) = close_client-Keeps n i in
          messages_to-run_on es (close_client n i) k stamped (hung_up-Follows stamped k i n v) h
          ∙ ap
              (λ t.
                messages_to fd t ++ broadcast show show_price (numbered k (prices_sent stamped es)))
              same
      messages_to-run_on (stamp now ∷ es) n k stamped v h =
          let (next, same) = stamp-Follows stamped k now n v in
          messages_to-run_on es (stamp_price n now) k true next h
          ∙ ap
              (λ t.
                messages_to fd t ++ broadcast show show_price (numbered k (prices_sent true es)))
              same
      messages_to-run_on (send_price price ∷ es) n k true v h =
          let (next, sent) = send-Follows k price n v in
          messages_to-run_on es (send_to_all atoi (λ id. show (pos id)) show_price n price) (suc k)
            false next h
          ∙ ap (λ t. t ++ broadcast show show_price (numbered (suc k) (prices_sent false es))) sent
          ∙ append_assoc (messages_to fd n.sendings) _ _
      messages_to-run_on (send_price price ∷ es) n k false v h =
          ap (λ m. messages_to fd (run_on m es).sendings) (send_early k price n v)
          ∙ messages_to-run_on es n k false v h

      start-Follows : Follows fd false 0 (add_client (no_clients {Time = Time}) fd)
      unfolding add_client
      start-Follows = record { once = ground arith; waits = (refl, refl) }

      -- A client whose socket is accepted before any price is stamped and not again, and that gets
      -- each message by itself: whatever happens at the server, orders of this client and of others
      -- included, it never throws, and orders exactly the prices that end a run of three prices that
      -- rise all the way or fall all the way, among all that are sent, numbered from 0.
      pub receive_and_respond-messages_to :
          (lt : F → F → Bool) (stoi : Bytes → Option ℤ) (stof : Bytes → Option F)
          (back : AreReadBack stoi stof show show_price) (es : List (NetEvent Time F))
          → All (λ x. x ≢ fd) (accepted_in es)
          → receive_and_respond stoi stof lt (
              messages_to fd
                (net_run atoi
                  (λ id. show (pos id))
                  show_price
                  (add_client no_clients fd)
                  es).sendings)
            ≡ record { orders = wanted lt (numbered 0 (prices_sent false es)); threw = false }
      unfolding add_client
      receive_and_respond-messages_to lt stoi stof back es h =
          ap (receive_and_respond stoi stof lt)
            (messages_to-run_on es (add_client no_clients fd) 0 false start-Follows h)
          ∙ receive_and_respond-wanted lt stoi stof show show_price back
              (numbered 0 (prices_sent false es))
