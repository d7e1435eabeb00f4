-- ===== src/Exchange/Simulation/Examples.antt =====
-- The theorem on the simulation at three rounds on a pool of two, with prices in ticks.
use advanced_cpp_p1g.Base.{ℕ, ◌+◌, ◌≡◌, some, none, ltb, ◌&&◌, if◌then◌else◌}
use advanced_cpp_p1g.Price.{tick_order}
use advanced_cpp_p1g.Exchange.Book.{init}
use advanced_cpp_p1g.Exchange.Book.Valid.{IsValid}
use advanced_cpp_p1g.Exchange.Book.Lookup.{order_of}
use advanced_cpp_p1g.Exchange.Simulation.{order_no, ticks, ticks_lem}

abbrev dollars : ℕ → ℕ
dollars k = 150 + k

ticks_lem_example :
    let b = ticks dollars (init 2) 3 in
    IsValid (λ _. Unit {0}) b
    × ((j : ℕ) → order_of b j ≡ (if ltb j 3 && ltb j 2 then some (order_no dollars j) else none))
    × (ticks dollars (init 2) (2 + 3) ≡ ticks dollars (init 2) 2)
ticks_lem_example = ticks_lem dollars 2 3
