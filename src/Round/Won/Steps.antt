-- ===== src/Round/Won/Steps.antt =====
-- Lines, names and securities on their way between the server and the client.
use advanced_cpp_p1g.Base.{
  ℕ, suc, ◌<◌, ◌≡◌, ◌≢◌, refl, ap, true, false, some, List, [], ◌∷◌, ◌++◌, map, length, find,
  find-All, arith, All, All-map,
}
use advanced_cpp_p1g.Base.Text.{Bytes, bytes_eq}
use advanced_cpp_p1g.Base.Int.{ℤ, eqb_ℤ}
use advanced_cpp_p1g.Challenge.Broadcast.{security_of}
use advanced_cpp_p1g.Challenge.Session.{is_space, line_of}
use advanced_cpp_p1g.ChallengeClient.Reply.{sent_of}
use advanced_cpp_p1g.Round.Market.{IsName}

pub map-append {ℓ κ} :
    {A : Type ℓ} {B : Type κ} (f : A → B) (xs ys : List A) → map f (xs ++ ys) ≡ map f xs ++ map f ys
map-append f [] ys = refl
map-append f (x ∷ xs) ys = ap (λ t. f x ∷ t) (map-append f xs ys)

pub length-map {ℓ κ} :
    {A : Type ℓ} {B : Type κ} (f : A → B) (xs : List A) → length (map f xs) ≡ length xs
length-map f [] = refl
length-map f (x ∷ xs) = ap suc (length-map f xs)

pub eqb_ℤ_refl : (a : ℤ) → eqb_ℤ a a ≡ true
eqb_ℤ_refl a = ground arith

pub word_no_break : (c : ℕ) → is_space c ≡ false → c ≢ b'\n'
word_no_break c h e = ground arith

pub line_of-append :
    (line : Bytes) → All (λ c. c ≢ b'\n') line → line_of (line ++ (b'\n' ∷ [])) ≡ some line
unfolding line_of
line_of-append [] h = refl
line_of-append (c ∷ line) h = ground (arith, h.0, line_of-append line h.1)

pub sent_of_short : (out : Bytes) → length out < 128 → sent_of out ≡ some out
unfolding sent_of
sent_of_short out h = ground arith

pub name_not_empty : (t : Bytes) → IsName t → t ≢ []
name_not_empty [] h = absurd (omega (arith, h.0.0))
name_not_empty (c ∷ t) h = λ e. cc

module _ {ℓ} {D : Type ℓ} where
  pub keys-security_of :
      (P : Bytes → Type 0) (m : List (Bytes × (D × D)))
      → All (λ e. P e.0) m
      → All (λ s. P s.ticker) (map security_of m)
  keys-security_of P [] h = tt
  keys-security_of P ((t, (bid, ask)) ∷ m) h = (h.0, keys-security_of P m h.1)

  pub visited-IsName :
      (market visited : List (Bytes × (D × D)))
      → All (λ e. IsName e.0) market
      → All (λ e. find e.0 market ≡ some e.1) visited
      → All (λ e. IsName e.0) visited
  visited-IsName market visited names h =
      All-map (λ e (k : find e.0 market ≡ some e.1). find-All IsName e.0 market e.1 names k) visited
        h
