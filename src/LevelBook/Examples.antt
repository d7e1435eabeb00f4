-- ===== src/LevelBook/Examples.antt =====
-- The theorems on the level book at a book with one order.
use advanced_cpp_p1g.Base.{ℕ, ◌≡◌, refl, true, none, some, find, assign, nat_eq, arith}
use advanced_cpp_p1g.Base.Int.{pos}
use advanced_cpp_p1g.LevelBook.{OrderBook, empty, make, add_order, modify_order}
use advanced_cpp_p1g.LevelBook.Consistent.{
  IsConsistent, in_level, add_order-IsConsistent, add_order_ghost, modify_order-IsConsistent,
}

abbrev none_yet : OrderBook ℕ ℕ
none_yet = empty

empty-IsConsistent : IsConsistent none_yet
unfolding find
empty-IsConsistent price id = refl

abbrev one : OrderBook ℕ ℕ
one = add_order empty 7 100 (pos 10) true

nothing_held : find 7 none_yet.order_lookup ≡ none
unfolding find
nothing_held = refl

held : find 7 one.order_lookup ≡ some (make 7 100 (pos 10) true)
unfolding add_order find assign
held = refl

one-IsConsistent : IsConsistent one
one-IsConsistent =
    add_order-IsConsistent none_yet 7 100 (pos 10) true empty-IsConsistent nothing_held

add_order_ghost_example :
    (in_level (add_order one 7 105 (pos 3) true) 100 7 ≡ some (make 7 100 (pos 10) true))
    × ¬ IsConsistent (add_order one 7 105 (pos 3) true)
add_order_ghost_example =
    add_order_ghost one 7 105 (pos 3) true (make 7 100 (pos 10) true) one-IsConsistent held
      (omega arith)

modify_order-IsConsistent_example : IsConsistent (modify_order one 7 105 (pos 3))
modify_order-IsConsistent_example = modify_order-IsConsistent one 7 105 (pos 3) one-IsConsistent
