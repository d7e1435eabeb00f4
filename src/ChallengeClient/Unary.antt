-- ===== src/ChallengeClient/Unary.antt =====
-- Numbers that are printed in unary and read with their whole part only, for the examples.
use advanced_cpp_p1g.Base.Text.{Bytes}
use advanced_cpp_p1g.Base.{
  ℕ, zero, suc, ◌+◌, ◌*◌, ◌≡◌, ◌≢◌, refl, ap, Option, none, [], ◌∷◌, ◌++◌, ◌==◌, if◌then◌else◌,
  replicate, All, arith,
}
use advanced_cpp_p1g.Base.Int.{ℤ, pos, negsuc}
use advanced_cpp_p1g.ChallengeClient.Scan.{AreDigits}
use advanced_cpp_p1g.ChallengeClient.Lines.{IsPlain}
use advanced_cpp_p1g.ChallengeClient.Answer.{Prints}
use advanced_cpp_p1g.ChallengeClient.{Decimal}

-- Numbers of which only the whole part is read.
instance abbrev pub whole : Decimal ℕ
whole = record {
  nought = 0;
  one = 1;
  ten = 10;
  tenth = 0;
  digit = λ c. c;
  add = λ a b. a + b;
  mul = λ a b. a * b;
}

abbrev pub parts : ℕ → Bytes × Option Bytes
parts n = (replicate n b'1', none)

abbrev pub show_id : ℤ → Bytes
show_id (pos n) = replicate n b'1'
show_id (negsuc n) = b'-' ∷ replicate n b'1'

abbrev pub count : Bytes → ℕ
count [] = 0
count (c ∷ cs) = if c == b'1' then suc (count cs) else 0

abbrev pub atoi : Bytes → ℤ
atoi [] = pos 0
atoi (c ∷ cs) = if c == b'-' then negsuc (count cs) else pos (count (c ∷ cs))

digits : (n : ℕ) → AreDigits (replicate n b'1')
digits zero = tt
digits (suc n) = (refl, digits n)

plain : (n : ℕ) → IsPlain (replicate n b'1')
plain zero = tt
plain (suc n) = ((omega arith, omega arith), plain n)

no_t : (n : ℕ) → All (λ (c : ℕ). c ≢ b'T') (replicate n b'1')
no_t zero = tt
no_t (suc n) = (omega arith, no_t n)

count_back : (n : ℕ) (rest : Bytes) → count (replicate n b'1' ++ (b'\n' ∷ rest)) ≡ n
count_back zero rest = refl
count_back (suc n) rest = ap suc (count_back n rest)

pub ids-IsPlain : (i : ℤ) → IsPlain (show_id i)
ids-IsPlain (pos n) = plain n
ids-IsPlain (negsuc n) = ((omega arith, omega arith), plain n)

pub ids_no_t : (i : ℤ) → All (λ (c : ℕ). c ≢ b'T') (show_id i)
ids_no_t (pos n) = no_t n
ids_no_t (negsuc n) = (omega arith, no_t n)

pub ids_back : (i : ℤ) (rest : Bytes) → atoi (show_id i ++ (b'\n' ∷ rest)) ≡ i
ids_back (pos zero) rest = refl
ids_back (pos (suc n)) rest = ap (λ k. pos (suc k)) (count_back n rest)
ids_back (negsuc n) rest = ap negsuc (count_back n rest)

pub unary-Prints : Prints parts show_id atoi
unary-Prints = record {
  numbers = digits;
  id_plain = ids-IsPlain;
  id_no_t = ids_no_t;
  id_back = ids_back;
}
