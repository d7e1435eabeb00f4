-- ===== src/PriceHits/Answered.antt =====
-- What comes of an order for a price that was sent.
pub mod Stamped
use advanced_cpp_p1g.Base.{
  ℕ, zero, suc, ◌≡◌, refl, sym, ap, subst, ◌∙◌, inl, inr, none, some, List, [], ◌∷◌, ◌++◌,
  get_elem?, find, find-assign, nat_eq, arith, All, All-map, All-append, Option-cases,
  if◌then◌else◌,
}
use advanced_cpp_p1g.Base.Fault.{some-inj}
use advanced_cpp_p1g.Base.Text.{Bytes}
use advanced_cpp_p1g.Base.Int.{ℤ, pos, negsuc}
use advanced_cpp_p1g.PriceHits.{
  Server, contains, order, broadcast_price, handle_known, handle_event, serve,
}
use advanced_cpp_p1g.PriceHits.FirstHit.{IsFair, event-IsFair, broadcast-IsFair, serve-IsFair}
use advanced_cpp_p1g.PriceHits.Clients.{
  HandlerThread, registering, receiving, finished, ClientInfo, Sending, Net, NetEvent, accepted,
  accept_failed, received, hung_up, stamp, send_price, text_in, send_all, no_clients, add_client,
  stamp_price, close_client, take_bytes, handle_client, price_message, send_to_all, net_step,
  net_run,
}
use advanced_cpp_p1g.PriceHits.Sent.{close_client-Keeps}
use advanced_cpp_p1g.PriceHits.Answered.Stamped.{
  IsStamped, IsSound, All-get_elem?, known_hit, taken, start-IsSound, order-IsSound, stamp-IsSound,
  close-IsSound, send_all-IsStamped,
}

module _ {ℓ} {Time : Type ℓ} where
  module _ (atoi : Bytes → ℤ) where
    take_bytes-IsSound :
        (n : Net Time) (i : ℕ) (bytes : Bytes) (c : ClientInfo) (t : HandlerThread)
        → IsSound n
        → IsSound (take_bytes atoi n i bytes c t)
    take_bytes-IsSound n i bytes c registering v = record {
      fair = v.fair;
      due = v.due;
      known = v.known;
    }
    take_bytes-IsSound n i bytes c receiving v = order-IsSound n c.name (atoi (text_in bytes)) v
    take_bytes-IsSound n i bytes c finished v = v

    handle_client-IsSound :
        (n : Net Time) (i : ℕ) (bytes : Bytes) → IsSound n → IsSound (handle_client atoi n i bytes)
    unfolding handle_client
    handle_client-IsSound n i bytes v = elim (Option-cases (get_elem? n.clients i)) [
      | inl e ↦
          let same : handle_client atoi n i bytes ≡ n = rw (e, handle_client) refl in
          subst IsSound (sym same) v
      | inr (c, e) ↦
          let same : handle_client atoi n i bytes ≡ take_bytes atoi n i bytes c c.client_thread =
            rw (e, handle_client) refl in
          subst IsSound (sym same) (take_bytes-IsSound n i bytes c c.client_thread v)
    ]

    module _ {κ} {F : Type κ} (show_id : ℕ → Bytes) (show_price : F → Bytes) where
      send-IsSound :
          (n : Net Time) (price : F)
          → IsSound n
          → IsSound (send_to_all atoi show_id show_price n price)
      unfolding send_to_all
      send-IsSound n price v = elim (Option-cases n.unsent) [
        | inl e ↦
            let same : send_to_all atoi show_id show_price n price ≡ n =
              simp (send_to_all, e) refl in
            subst IsSound (sym same) v
        | inr (id, e) ↦
            let more = send_all id (price_message show_id show_price id price) n.clients in
            let same : send_to_all atoi show_id show_price n price
                ≡ record n { unsent = none; sendings = n.sendings ++ more } =
              rw (e, send_to_all) refl in
            subst IsSound (sym same) (record {
              fair = v.fair;
              due = λ j h. cc;
              known =
                  All-append (λ x. IsStamped n.server x.id) n.sendings more v.known
                    (send_all-IsStamped n.server id (price_message show_id show_price id price)
                      n.clients (v.due id e));
            })
      ]

      net_step-IsSound :
          (n : Net Time) (e : NetEvent Time F)
          → IsSound n
          → IsSound (net_step atoi show_id show_price n e)
      unfolding net_step add_client
      net_step-IsSound n (accepted fd) v = record { fair = v.fair; due = v.due; known = v.known }
      net_step-IsSound n accept_failed v = v
      net_step-IsSound n (received i bytes) v = handle_client-IsSound n i bytes v
      net_step-IsSound n (hung_up i) v = close-IsSound n i v
      net_step-IsSound n (stamp now) v = stamp-IsSound n now v
      net_step-IsSound n (send_price price) v = send-IsSound n price v

      net_run-IsSound :
          (n : Net Time) (es : List (NetEvent Time F))
          → IsSound n
          → IsSound (net_run atoi show_id show_price n es)
      unfolding net_run
      net_run-IsSound n [] v = v
      net_run-IsSound n (e ∷ es) v =
          net_run-IsSound (net_step atoi show_id show_price n e) es (net_step-IsSound n e v)

      -- After any events, the bytes of a registered client that atoi reads as the id of a price that
      -- was given to send before, to anyone, are never taken for an unknown price: if the price has
      -- been hit, the server stays as it is, and otherwise it is hit now, and reported for the name
      -- that the client registered.
      pub handle_client-sendings :
          (es : List (NetEvent Time F)) (i k : ℕ) (bytes : Bytes) (c : ClientInfo) (x : Sending)
          (n : Net Time)
          → net_run atoi show_id show_price no_clients es ≡ n
          → get_elem? n.clients i ≡ some c
          → c.client_thread ≡ receiving
          → get_elem? n.sendings k ≡ some x
          → atoi (text_in bytes) ≡ pos x.id
          → (handle_client atoi n i bytes).server ≡ (
              if contains n.server.price_already_hit x.id then n.server else record n.server {
                price_already_hit = x.id ∷ n.server.price_already_hit;
                reported = record { client = c.name; id = x.id } ∷ n.server.reported;
              })
      handle_client-sendings es i k bytes c x n reached here busy sent reads =
          let v = subst IsSound reached (net_run-IsSound no_clients es start-IsSound) in
          let stamped = All-get_elem? (λ y. IsStamped n.server y.id) n.sendings k x sent v.known in
          taken atoi n i bytes c here busy
          ∙ ap (λ j. handle_event n.server (order c.name j)) reads
          ∙ known_hit n.server c.name x.id stamped
