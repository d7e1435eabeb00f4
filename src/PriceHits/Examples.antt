-- ===== src/PriceHits/Examples.antt =====
-- The theorem on the price server at two clients that hit the same price.
use advanced_cpp_p1g.Base.{
  ◌+◌, false, arith, ℕ, ltb, ◌≡◌, refl, List, [], ◌∷◌, ◌++◌, replicate, if◌then◌else◌,
}
use advanced_cpp_p1g.Base.Text.{Bytes}
use advanced_cpp_p1g.Base.Int.{ℤ, pos, negsuc}
use advanced_cpp_p1g.PriceHits.{
  Event, broadcast, order, no_prices, contains, broadcast_price, serve,
}
use advanced_cpp_p1g.PriceHits.Clients.{
  Net, NetEvent, accepted, received, hung_up, stamp, send_price, receiving, no_clients, add_client,
  stamp_price, close_client, handle_client, price_message, send_to_all, net_step, net_run,
}
use advanced_cpp_p1g.PriceHits.Closed.Counts.{sends_to, times, gone}
use advanced_cpp_p1g.PriceHits.Closed.{sends_to-send_to_all}
use advanced_cpp_p1g.PriceHits.Answered.{handle_client-sendings}
use advanced_cpp_p1g.PriceClient.{receive_and_respond}
use advanced_cpp_p1g.PriceClient.Unary.{show_id, stoi, show_price, stof, unary-AreReadBack}
use advanced_cpp_p1g.PriceClient.Trend.{wanted}
use advanced_cpp_p1g.PriceHits.Followed.Messages.{messages_to}
use advanced_cpp_p1g.PriceHits.Followed.{receive_and_respond-messages_to}
use advanced_cpp_p1g.PriceHits.FirstHit.{IsFair, serve-IsFair}

abbrev alice : Bytes
alice = b'a' ∷ b'l' ∷ b'i' ∷ b'c' ∷ b'e' ∷ []

abbrev bob : Bytes
bob = b'b' ∷ b'o' ∷ b'b' ∷ []

abbrev events : List (Event ℕ)
events =
    broadcast 5
    ∷ order alice (pos 0)
    ∷ order bob (pos 0)
    ∷ order bob (pos 9)
    ∷ order bob (negsuc 0)
    ∷ []

serve-IsFair_example : IsFair (serve no_prices events)
serve-IsFair_example = serve-IsFair events

abbrev show_number : ℕ → Bytes
show_number n = replicate n b'1'

abbrev atoi : Bytes → ℤ
atoi [] = pos 0
atoi (c ∷ cs) = pos 1

-- Alice hangs up, and her socket is accepted again, for Bob.
abbrev meeting : List (NetEvent ℕ ℕ)
meeting =
    accepted 7
    ∷ received 0 alice
    ∷ stamp 3
    ∷ send_price 4
    ∷ hung_up 0
    ∷ accepted 7
    ∷ received 1 bob
    ∷ stamp 8
    ∷ []

abbrev at_two : Net ℕ
unfolding net_run
at_two = net_run atoi show_number show_number no_clients meeting

-- Bob, who is the only one on socket 7, gets the price twice.
sends_to-send_to_all_example :
    sends_to 7 (send_to_all atoi show_number show_number at_two 2).sendings
    ≡ sends_to 7 at_two.sendings + (times 7 at_two.open_sockets + gone 7 at_two.clients)
unfolding net_run net_step add_client stamp_price close_client handle_client send_to_all
    broadcast_price
sends_to-send_to_all_example =
    sends_to-send_to_all atoi show_number show_number meeting at_two 1 2 7 refl refl

abbrev then_sent : List (NetEvent ℕ ℕ)
then_sent = meeting ++ (send_price 2 ∷ [])

abbrev met : Net ℕ
unfolding net_run
met = net_run atoi show_number show_number no_clients then_sent

handle_client-sendings_example : (handle_client atoi met 1 (b'1' ∷ [])).server ≡ (
    if contains met.server.price_already_hit 1 then met.server else record met.server {
      price_already_hit = 1 ∷ met.server.price_already_hit;
      reported = record { client = bob; id = 1 } ∷ met.server.reported;
    })
unfolding net_run net_step add_client stamp_price close_client handle_client send_to_all
    broadcast_price
handle_client-sendings_example =
    handle_client-sendings atoi show_number show_number then_sent 1 1 (b'1' ∷ [])
      (record { socket = 7; name = bob; client_thread = receiving })
      (record { socket = 7; id = 1; message = price_message show_number show_number 1 2 }) met refl
      refl refl refl refl

-- Two clients; the prices 100, 103, 105 rise.
abbrev trading : List (NetEvent ℕ ℕ)
trading =
    received 0 alice
    ∷ accepted 8
    ∷ stamp 1
    ∷ send_price 100
    ∷ received 1 bob
    ∷ stamp 2
    ∷ send_price 103
    ∷ hung_up 1
    ∷ stamp 3
    ∷ send_price 105
    ∷ []

receive_and_respond-messages_to_example :
    receive_and_respond stoi stof ltb (
      messages_to 7
        (net_run atoi
          (λ id. show_id (pos id))
          show_price
          (add_client no_clients 7)
          trading).sendings)
    ≡ record {
      orders = wanted ltb ((pos 0, 100) ∷ (pos 1, 103) ∷ (pos 2, 105) ∷ []);
      threw = false;
    }
receive_and_respond-messages_to_example =
    receive_and_respond-messages_to atoi show_id show_price 7 ltb stoi stof unary-AreReadBack
      trading (omega arith)
