-- ===== src/PriceHits/Answered/Stamped.antt =====
-- The prices that were sent have a time.
use advanced_cpp_p1g.Base.{
  ℕ, zero, suc, ◌≡◌, refl, sym, ap, subst, ◌∙◌, inl, inr, some, List, [], ◌∷◌, get_elem?, find,
  find-assign, nat_eq, arith, All, All-map, Option-cases, if◌then◌else◌,
}
use advanced_cpp_p1g.Base.Fault.{some-inj}
use advanced_cpp_p1g.Base.Text.{Bytes}
use advanced_cpp_p1g.Base.Int.{ℤ, pos, negsuc}
use advanced_cpp_p1g.PriceHits.{
  Server, contains, order, broadcast_price, handle_known, handle_event, serve,
}
use advanced_cpp_p1g.PriceHits.FirstHit.{IsFair, event-IsFair, broadcast-IsFair, serve-IsFair}
use advanced_cpp_p1g.PriceHits.Clients.{
  receiving, ClientInfo, Net, text_in, send_all, no_clients, stamp_price, close_client, take_bytes,
  handle_client,
}
use advanced_cpp_p1g.PriceHits.Sent.{close_client-Keeps}

pub All-get_elem? {ℓ κ} :
    {A : Type ℓ} (P : A → Type κ) (xs : List A) (k : ℕ) (x : A)
    → get_elem? xs k ≡ some x
    → All P xs
    → P x
All-get_elem? P [] k x e h = cc
All-get_elem? P (y ∷ xs) zero x e h = subst P (some-inj e) h.0
All-get_elem? P (y ∷ xs) (suc k) x e h = All-get_elem? P xs k x e h.1

module _ {ℓ} {Time : Type ℓ} where
  -- The price has a time.
  abbrev pub IsStamped : Server Time → ℕ → Type ℓ
  IsStamped s id = (t : Time) × (find id s.price_timestamps ≡ some t)

  pub record IsSound (n : Net Time) : Type ℓ where
    pub fair : IsFair n.server
    pub due : (id : ℕ) → n.unsent ≡ some id → IsStamped n.server id
    pub known : All (λ x. IsStamped n.server x.id) n.sendings

  broadcast-IsStamped :
      (s : Server Time) (now : Time) (id : ℕ)
      → IsStamped s id
      → IsStamped (broadcast_price s now) id
  unfolding broadcast_price
  broadcast-IsStamped s now id (t, e) =
      elim (Option-cases (find id (broadcast_price s now).price_timestamps)) [
        | inl h ↦ absurd (ground (arith, h, e, find-assign s.price_id id now s.price_timestamps))
        | inr (u, h) ↦ (u, h)
      ]

  broadcast_stamps : (s : Server Time) (now : Time) → IsStamped (broadcast_price s now) s.price_id
  unfolding broadcast_price
  broadcast_stamps s now =
      (now, ground (arith, find-assign s.price_id s.price_id now s.price_timestamps))

  event_timestamps :
      (s : Server Time) (client : Bytes) (id : ℤ)
      → (handle_event s (order client id)).price_timestamps ≡ s.price_timestamps
  unfolding handle_event handle_known
  event_timestamps s client (pos id) = ground arith
  event_timestamps s client (negsuc n) = refl

  pub known_hit :
      (s : Server Time) (client : Bytes) (id : ℕ)
      → IsStamped s id
      → handle_event s (order client (pos id)) ≡ (
          if contains s.price_already_hit id then s else record s {
            price_already_hit = id ∷ s.price_already_hit;
            reported = record { client = client; id = id } ∷ s.reported;
          })
  unfolding handle_event handle_known
  known_hit s client id (t, e) = rw e refl

  pub taken :
      (atoi : Bytes → ℤ) (n : Net Time) (i : ℕ) (bytes : Bytes) (c : ClientInfo)
      → get_elem? n.clients i ≡ some c
      → c.client_thread ≡ receiving
      → (handle_client atoi n i bytes).server
        ≡ handle_event n.server (order c.name (atoi (text_in bytes)))
  unfolding handle_client
  taken atoi n i bytes c here busy =
      let same : handle_client atoi n i bytes ≡ take_bytes atoi n i bytes c c.client_thread =
        rw (here, handle_client) refl in
      ap (λ m. m.server) same ∙ ap (λ t. (take_bytes atoi n i bytes c t).server) busy

  pub start-IsSound : IsSound no_clients
  unfolding serve
  start-IsSound = record { fair = serve-IsFair []; due = λ j h. cc; known = tt }

  -- A new server that knows all that the old one knew.
  IsSound-server :
      (n : Net Time) (s : Server Time)
      → IsSound n
      → IsFair s
      → ((id : ℕ) → IsStamped n.server id → IsStamped s id)
      → IsSound (record n { server = s })
  IsSound-server n s v fair more = record {
    fair = fair;
    due = λ id e. more id (v.due id e);
    known = All-map (λ x (h : IsStamped n.server x.id). more x.id h) n.sendings v.known;
  }

  pub order-IsSound :
      (n : Net Time) (client : Bytes) (id : ℤ)
      → IsSound n
      → IsSound (record n { server = handle_event n.server (order client id) })
  order-IsSound n client id v =
      IsSound-server n (handle_event n.server (order client id)) v
        (event-IsFair n.server (order client id) v.fair)
        (λ j (t, e). (t, ap (find j) (event_timestamps n.server client id) ∙ e))

  pub stamp-IsSound : (n : Net Time) (now : Time) → IsSound n → IsSound (stamp_price n now)
  unfolding stamp_price
  stamp-IsSound n now v = elim (Option-cases n.unsent) [
    | inl e ↦
        let s = broadcast_price n.server now in
        let next =
          IsSound-server n s v (broadcast-IsFair n.server now v.fair)
            (broadcast-IsStamped n.server now) in
        let same : stamp_price n now ≡ record n { server = s; unsent = some n.server.price_id } =
          rw (e, stamp_price) refl in
        subst IsSound (sym same) (record {
          fair = next.fair;
          due = λ id h. subst (IsStamped s) (ground (arith, h)) (broadcast_stamps n.server now);
          known = next.known;
        })
    | inr (id, e) ↦
        let same : stamp_price n now ≡ n = simp (stamp_price, e) refl in subst IsSound (sym same) v
  ]

  pub close-IsSound : (n : Net Time) (i : ℕ) → IsSound n → IsSound (close_client n i)
  close-IsSound n i v =
      let (same_sockets, server, unsent, sendings) = close_client-Keeps n i in
      record {
        fair = subst IsFair (sym server) v.fair;
        due = λ id h. subst (λ s. IsStamped s id) (sym server) (v.due id (sym unsent ∙ h));
        known =
            subst (λ s. All (λ x. IsStamped s x.id) (close_client n i).sendings) (sym server)
              (subst (All (λ x. IsStamped n.server x.id)) (sym sendings) v.known);
      }

  pub send_all-IsStamped :
      (s : Server Time) (id : ℕ) (message : Bytes) (cs : List ClientInfo)
      → IsStamped s id
      → All (λ x. IsStamped s x.id) (send_all id message cs)
  send_all-IsStamped s id message [] h = tt
  send_all-IsStamped s id message (c ∷ cs) h = (h, send_all-IsStamped s id message cs h)
