-- ===== src/PriceHits/FirstHit.antt =====
-- No price is hit twice.
use advanced_cpp_p1g.Base.{
  ℕ, ◌<◌, ◌≡◌, refl, ap, inl, inr, false, some, List, [], ◌∷◌, find, find-assign, nat_eq, arith,
  All, All-map, Bool-cases, Option-cases,
}
use advanced_cpp_p1g.Base.Text.{Bytes}
use advanced_cpp_p1g.Base.Int.{pos, negsuc}
use advanced_cpp_p1g.PriceHits.{
  Hit, Server, Event, broadcast, order, contains, no_prices, broadcast_price, handle_known,
  handle_event, serve,
}

-- No id stands twice in the list.
abbrev pub AreOnce : List ℕ → Type 0
AreOnce [] = Unit {0}
AreOnce (x ∷ xs) = (contains xs x ≡ false) × AreOnce xs

abbrev pub ids : List Hit → List ℕ
ids [] = []
ids (h ∷ hs) = h.id ∷ ids hs

module _ {ℓ} {Time : Type ℓ} where
  pub record IsFair (s : Server Time) : Type ℓ where
    pub same : ids s.reported ≡ s.price_already_hit
    pub once : AreOnce s.price_already_hit
    pub sent : All (λ i. i < s.price_id) s.price_already_hit
    pub stamped : (i : ℕ) (t : Time) → find i s.price_timestamps ≡ some t → i < s.price_id

  pub broadcast-IsFair : (s : Server Time) (now : Time) → IsFair s → IsFair (broadcast_price s now)
  unfolding broadcast_price
  broadcast-IsFair s now v = record {
    same = v.same;
    once = v.once;
    sent = All-map (λ i (h : i < s.price_id). omega arith) s.price_already_hit v.sent;
    stamped =
        λ i t h. ground (arith, find-assign s.price_id i now s.price_timestamps, v.stamped i t);
  }

  known-IsFair :
      (s : Server Time) (client : Bytes) (id : ℕ) → IsFair s → IsFair (handle_known s client id)
  unfolding handle_known
  known-IsFair s client id v = elim (Bool-cases (contains s.price_already_hit id)) [
    | inl e ↦ rw e v
    | inr e ↦ elim (Option-cases (find id s.price_timestamps)) [
      | inl d ↦ rw (e, d) v
      | inr (t, d) ↦
          rw (e, d)
            (record {
              same = ap (λ l. id ∷ l) v.same;
              once = (e, v.once);
              sent = (v.stamped id t d, v.sent);
              stamped = v.stamped;
            })
    ]
  ]

  pub event-IsFair : (s : Server Time) (e : Event Time) → IsFair s → IsFair (handle_event s e)
  unfolding handle_event
  event-IsFair s (broadcast now) v = broadcast-IsFair s now v
  event-IsFair s (order client (pos id)) v = known-IsFair s client id v
  event-IsFair s (order client (negsuc n)) v = v

  serve-keeps : (s : Server Time) (events : List (Event Time)) → IsFair s → IsFair (serve s events)
  unfolding serve
  serve-keeps s [] v = v
  serve-keeps s (e ∷ events) v = serve-keeps (handle_event s e) events (event-IsFair s e v)

  -- Whatever the sequence of broadcasts and orders: each price is reported as hit at most once, so by
  -- one client, only prices that were sent are hit, and the reports are exactly the set of the
  -- prices that were hit.
  pub serve-IsFair : (events : List (Event Time)) → IsFair (serve no_prices events)
  unfolding find
  serve-IsFair events =
      serve-keeps no_prices events
        (record { same = refl; once = tt; sent = tt; stamped = λ i t h. cc })
