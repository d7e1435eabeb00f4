-- ===== src/Exchange/Manager/Examples.antt =====
-- The theorems on the order manager at a manager with one order.
use advanced_cpp_p1g.Base.{ℕ, ◌≡◌, ◌≢◌, true, some, find, nat_eq}
use advanced_cpp_p1g.Base.Int.{pos}
use advanced_cpp_p1g.Exchange.Order.{Order, make, cancelled}
use advanced_cpp_p1g.Exchange.Manager.{OrderManager, empty, create_order, fill_order, cancel_order}
use advanced_cpp_p1g.Exchange.Manager.Orders.{
  IsValid, order_at, create_order_lem, fill_revives_cancelled,
}

empty-IsValid : IsValid {P = ℕ} empty
unfolding empty find
empty-IsValid = record { live = λ id ptr h. cc; unshared = λ i j ptr h k. cc }

abbrev order : Order ℕ
order = make 7 "ACME" 100 (pos 10) true

abbrev one : OrderManager ℕ
one = create_order empty 7 "ACME" 100 (pos 10) true

one-IsValid : IsValid one
one-IsValid = (create_order_lem empty 7 "ACME" 100 (pos 10) true empty-IsValid).0

held : order_at one 7 ≡ some order
held = (create_order_lem empty 7 "ACME" 100 (pos 10) true empty-IsValid).1 7

fill_revives_cancelled_example :
    (q : Order ℕ) × (order_at (fill_order (cancel_order one 7) 7 (pos 4)) 7 ≡ some q)
    × (q.status ≢ cancelled)
fill_revives_cancelled_example = fill_revives_cancelled one 7 (pos 4) order one-IsValid held
