-- ===== src/PriceClient/Unary.antt =====
-- Ids that are printed in unary and prices of one byte, for the examples.
use advanced_cpp_p1g.Base.Text.{Bytes}
use advanced_cpp_p1g.Base.{
  ℕ, zero, suc, ◌≡◌, ◌≢◌, refl, ap, Option, none, some, [], ◌∷◌, ◌==◌, if◌then◌else◌, replicate,
  length, length-replicate, All, arith,
}
use advanced_cpp_p1g.Base.Int.{ℤ, pos, negsuc}
use advanced_cpp_p1g.PriceClient.Trend.{AreReadBack}

abbrev pub show_id : ℤ → Bytes
show_id (pos n) = replicate n b'1'
show_id (negsuc n) = b'-' ∷ replicate n b'1'

abbrev pub stoi : Bytes → Option ℤ
stoi [] = some (pos 0)
stoi (c ∷ cs) = some (if c == b'-' then negsuc (length cs) else pos (suc (length cs)))

abbrev pub show_price : ℕ → Bytes
show_price n = n ∷ []

abbrev pub stof : Bytes → Option ℕ
stof [] = none
stof (c ∷ cs) = some c

ones : (n : ℕ) → All (λ (c : ℕ). c ≢ b',') (replicate n b'1')
ones zero = tt
ones (suc n) = (omega arith, ones n)

show_id_no_comma : (i : ℤ) → All (λ (c : ℕ). c ≢ b',') (show_id i)
show_id_no_comma (pos n) = ones n
show_id_no_comma (negsuc n) = (omega arith, ones n)

stoi-show_id : (i : ℤ) → stoi (show_id i) ≡ some i
stoi-show_id (pos zero) = refl
stoi-show_id (pos (suc n)) = ap (λ k. some (pos (suc k))) (length-replicate n b'1')
stoi-show_id (negsuc n) = ap (λ k. some (negsuc k)) (length-replicate n b'1')

pub unary-AreReadBack : AreReadBack stoi stof show_id show_price
unary-AreReadBack = record {
  no_comma = show_id_no_comma;
  id_back = stoi-show_id;
  price_back = λ p. refl;
}
