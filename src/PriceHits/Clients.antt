-- ===== src/PriceHits/Clients.antt =====
-- Phase_2/hft_server.cpp: the connections. What accept and recv return is the input, and what is given
-- to send the output. A turn of `broadcastPrices` is two steps, since it takes two locks one after the
-- other. What std::atoi reads and how numbers are printed are parameters.
use advanced_cpp_p1g.Base.{
  ℕ, Option, none, some, List, [], ◌∷◌, ◌++◌, ◌==◌, if◌then◌else◌, get_elem?, set,
}
use advanced_cpp_p1g.Base.Text.{Bytes}
use advanced_cpp_p1g.Base.Int.{ℤ}
use advanced_cpp_p1g.PriceHits.{Server, no_prices, order, broadcast_price, handle_event}

-- Where the thread of a client is: before its first recv has returned, in the loop, or at its end.
pub data HandlerThread : Type 0 where
  registering receiving finished : HandlerThread

pub record ClientInfo : Type 0 where
  pub socket : ℕ
  pub name : Bytes
  pub client_thread : HandlerThread

-- A message that was given to send, and the id of its price.
pub record Sending : Type 0 where
  pub socket : ℕ
  pub id : ℕ
  pub message : Bytes

-- `unsent` is the id that `broadcastPrices` has stamped and not sent yet; `sendings` are all the calls
-- of send so far; `open_sockets` are the connections that are not closed.
pub record Net {ℓ} (Time : Type ℓ) : Type ℓ where
  pub server : Server Time
  pub clients : List ClientInfo
  pub unsent : Option ℕ
  pub sendings : List Sending
  pub open_sockets : List ℕ

pub data NetEvent {ℓ κ} (Time : Type ℓ) (F : Type κ) : Type (ℓ ⊔ κ) where
  accepted : ℕ → NetEvent Time F
  accept_failed : NetEvent Time F
  received : ℕ → Bytes → NetEvent Time F
  hung_up : ℕ → NetEvent Time F
  stamp : Time → NetEvent Time F
  send_price : F → NetEvent Time F

-- string(buffer), for the bytes in front of the NULs
abbrev pub text_in : Bytes → Bytes
text_in [] = []
text_in (c ∷ p) = let rest = text_in p in if c == 0 then [] else c ∷ rest

abbrev pub remove_one : ℕ → List ℕ → List ℕ
remove_one fd [] = []
remove_one fd (x ∷ xs) = if x == fd then xs else x ∷ remove_one fd xs

-- for (auto& client : clients) send(...)
abbrev pub send_all : ℕ → Bytes → List ClientInfo → List Sending
send_all id message [] = []
send_all id message (c ∷ cs) =
    record { socket = c.socket; id = id; message = message } ∷ send_all id message cs

-- to_string(id) + "," + to_string(price)
abbrev pub price_message {κ} : {F : Type κ} → (ℕ → Bytes) → (F → Bytes) → ℕ → F → Bytes
price_message show_id show_price id price = show_id id ++ (b',' ∷ show_price price)

module _ {ℓ} {Time : Type ℓ} where
  abbrev pub no_clients : Net Time
  no_clients = record {
    server = no_prices;
    clients = [];
    unsent = none;
    sendings = [];
    open_sockets = [];
  }

  -- The loop of `startServer`, after an accept that did not fail.
  unfoldable pub add_client : Net Time → ℕ → Net Time
  add_client n fd = record n {
    clients = n.clients ++ (record { socket = fd; name = []; client_thread = registering } ∷ []);
    open_sockets = fd ∷ n.open_sockets;
  }

  -- The id of the new price, and its time.
  unfoldable pub stamp_price : Net Time → Time → Net Time
  stamp_price n now = elim n.unsent [
    | none ↦ record n { server = broadcast_price n.server now; unsent = some n.server.price_id }
    | some id ↦ n
  ]

  -- The end of `handleClient`, after a recv that gave no bytes, by where the thread is.
  abbrev pub close_socket : Net Time → ℕ → ClientInfo → Net Time
  close_socket n i c = record n {
    clients = set n.clients i (record c { client_thread = finished });
    open_sockets = remove_one c.socket n.open_sockets;
  }

  abbrev pub no_bytes : Net Time → ℕ → ClientInfo → HandlerThread → Net Time
  no_bytes n i c registering = close_socket n i c
  no_bytes n i c receiving = close_socket n i c
  no_bytes n i c finished = n

  unfoldable pub close_client : Net Time → ℕ → Net Time
  close_client n i = elim (get_elem? n.clients i) [
    | none ↦ n
    | some c ↦ no_bytes n i c c.client_thread
  ]

  module _ (atoi : Bytes → ℤ) where
    -- The bytes that recv gave: the name first, orders from then on.
    abbrev pub take_bytes : Net Time → ℕ → Bytes → ClientInfo → HandlerThread → Net Time
    take_bytes n i bytes c registering = record n {
      clients = set n.clients i (record c { name = text_in bytes; client_thread = receiving });
    }
    take_bytes n i bytes c receiving = record n {
      server = handle_event n.server (order c.name (atoi (text_in bytes)));
    }
    take_bytes n i bytes c finished = n

    unfoldable pub handle_client : Net Time → ℕ → Bytes → Net Time
    handle_client n i bytes = elim (get_elem? n.clients i) [
      | none ↦ n
      | some c ↦ take_bytes n i bytes c c.client_thread
    ]

    module _ {κ} {F : Type κ} (show_id : ℕ → Bytes) (show_price : F → Bytes) where
      -- The second lock of `broadcastPrices`.
      unfoldable pub send_to_all : Net Time → F → Net Time
      send_to_all n price = elim n.unsent [
        | none ↦ n
        | some id ↦ record n {
          unsent = none;
          sendings =
              n.sendings ++ send_all id (price_message show_id show_price id price) n.clients;
        }
      ]

      unfoldable pub net_step : Net Time → NetEvent Time F → Net Time
      net_step n (accepted fd) = add_client n fd
      net_step n accept_failed = n
      net_step n (received i bytes) = handle_client n i bytes
      net_step n (hung_up i) = close_client n i
      net_step n (stamp now) = stamp_price n now
      net_step n (send_price price) = send_to_all n price

      unfoldable pub net_run : Net Time → List (NetEvent Time F) → Net Time
      net_run n [] = n
      net_run n (e ∷ es) = net_run (net_step n e) es
