-- ===== src/PriceHits/Closed/Counts.antt =====
-- How many clients, sockets and messages there are for a socket.
use advanced_cpp_p1g.Base.{
  ℕ, zero, suc, ◌+◌, ◌-◌, ◌<◌, ◌≡◌, refl, Bool, true, false, some, List, [], ◌∷◌, ◌++◌, get_elem?,
  set, if◌then◌else◌, ◌==◌, arith,
}
use advanced_cpp_p1g.Base.Fault.{some-inj}
use advanced_cpp_p1g.Base.Text.{Bytes}
use advanced_cpp_p1g.PriceHits.Clients.{
  HandlerThread, registering, receiving, finished, ClientInfo, Sending, remove_one, send_all,
}

abbrev one_if : Bool → ℕ
one_if true = 1
one_if false = 0

abbrev pub times : ℕ → List ℕ → ℕ
times fd [] = 0
times fd (x ∷ xs) = one_if (x == fd) + times fd xs

abbrev pub goes_on : HandlerThread → ℕ
goes_on registering = 1
goes_on receiving = 1
goes_on finished = 0

-- The clients on this socket whose thread goes on.
abbrev pub live : ℕ → List ClientInfo → ℕ
live fd [] = 0
live fd (c ∷ cs) = (if c.socket == fd then goes_on c.client_thread else 0) + live fd cs

-- Those whose thread has ended.
abbrev pub gone : ℕ → List ClientInfo → ℕ
gone fd [] = 0
gone fd (c ∷ cs) = (if c.socket == fd then 1 - goes_on c.client_thread else 0) + gone fd cs

-- The messages that are given to this socket.
abbrev pub sends_to : ℕ → List Sending → ℕ
sends_to fd [] = 0
sends_to fd (x ∷ xs) = one_if (x.socket == fd) + sends_to fd xs

pub times-remove_one :
    (fd s : ℕ) (xs : List ℕ)
    → 0 < times s xs
    → times fd xs ≡ times fd (remove_one s xs) + one_if (s == fd)
times-remove_one fd s [] h = absurd (omega (arith, h))
times-remove_one fd s (x ∷ xs) h = ground (arith, h, times-remove_one fd s xs)

pub live-append : (fd : ℕ) (xs ys : List ClientInfo) → live fd (xs ++ ys) ≡ live fd xs + live fd ys
live-append fd [] ys = omega arith
live-append fd (x ∷ xs) ys = omega (arith, live-append fd xs ys)

pub live-set :
    (fd : ℕ) (cs : List ClientInfo) (i : ℕ) (c d : ClientInfo)
    → get_elem? cs i ≡ some c
    → d.socket ≡ c.socket
    → live fd cs + (if c.socket == fd then goes_on d.client_thread else 0)
      ≡ live fd (set cs i d) + (if c.socket == fd then goes_on c.client_thread else 0)
live-set fd [] i c d e h = cc
live-set fd (x ∷ cs) zero c d e h = ground (arith, some-inj e, h)
live-set fd (x ∷ cs) (suc i) c d e h = omega (arith, live-set fd cs i c d e h)

pub sends_to-append :
    (fd : ℕ) (xs ys : List Sending) → sends_to fd (xs ++ ys) ≡ sends_to fd xs + sends_to fd ys
sends_to-append fd [] ys = omega arith
sends_to-append fd (x ∷ xs) ys = omega (arith, sends_to-append fd xs ys)

thread_counts : (t : HandlerThread) → goes_on t + (1 - goes_on t) ≡ 1
thread_counts registering = refl
thread_counts receiving = refl
thread_counts finished = refl

pub sends_to-send_all :
    (fd id : ℕ) (message : Bytes) (cs : List ClientInfo)
    → sends_to fd (send_all id message cs) ≡ live fd cs + gone fd cs
sends_to-send_all fd id message [] = refl
sends_to-send_all fd id message (c ∷ cs) =
    ground (arith, sends_to-send_all fd id message cs, thread_counts c.client_thread)

pub live-at :
    (cs : List ClientInfo) (i : ℕ) (c : ClientInfo)
    → get_elem? cs i ≡ some c
    → goes_on c.client_thread ≡ 1
    → 0 < live c.socket cs
live-at [] i c e h = cc
live-at (x ∷ cs) zero c e h = ground (arith, some-inj e, h)
live-at (x ∷ cs) (suc i) c e h = omega (arith, live-at cs i c e h)
