-- ===== src/ChallengeClient/Scan.antt =====
-- Scanning one number, one line, one mark.
use advanced_cpp_p1g.Base.Text.{Bytes}
use advanced_cpp_p1g.Base.{
  ℕ, ◌-◌, ◌≡◌, ◌≢◌, refl, ap, ◌∙◌, Bool, true, false, Option, none, some, [], ◌∷◌, ◌++◌, ◌==◌,
  if◌then◌else◌, length, arith, All, append_assoc,
}
use advanced_cpp_p1g.ChallengeClient.{
  starts, pass, next_line, behind, is_digit, Decimal, whole_part, fraction, after_whole,
  parse_double,
}

pub pass-append : (front rest : Bytes) → pass (length front) (front ++ rest) ≡ some (front, rest)
pass-append [] rest = refl
pass-append (c ∷ front) rest = rw (pass-append front rest)

pub next_line-append :
    (front rest : Bytes) → All (λ c. c ≢ b'\n') front → next_line (front ++ (b'\n' ∷ rest)) ≡ rest
next_line-append [] rest h = refl
next_line-append (c ∷ front) rest h = ground (arith, h.0, next_line-append front rest h.1)

-- The byte stands in the text.
abbrev pub occurs : ℕ → Bytes → Bool
occurs k [] = false
occurs k (c ∷ cs) = if k == c then true else occurs k cs

-- A pattern of one line, with a byte that the line does not have, does not stand at its start.
starts_not :
    (k : ℕ) (pat line rest : Bytes)
    → All (λ c. c ≢ b'\n') pat
    → occurs k pat ≡ true
    → All (λ c. c ≢ k) line
    → starts pat (line ++ (b'\n' ∷ rest)) ≡ false
starts_not k [] line rest h o g = cc
starts_not k (x ∷ pat) [] rest h o g = ground (arith, h.0)
starts_not k (x ∷ pat) (c ∷ line) rest h o g =
    ground (arith, g.0, starts_not k pat line rest h.1, g.1)

pub behind-line :
    (k : ℕ) (pat line rest : Bytes)
    → All (λ c. c ≢ b'\n') pat
    → occurs k pat ≡ true
    → All (λ c. c ≢ k) line
    → behind pat (line ++ (b'\n' ∷ rest)) ≡ behind pat rest
unfolding behind
behind-line k pat [] rest h o g = rw (starts_not k pat [] rest h o tt) refl
behind-line k pat (c ∷ line) rest h o g =
    rw (starts_not k pat (c ∷ line) rest h o g) (behind-line k pat line rest h o g.1)

-- What a number cannot go on with.
abbrev pub Stops : Bytes → Type 0
Stops [] = Unit
Stops (c ∷ p) = (is_digit c ≡ false) × ((c == b'.') ≡ false)

-- A printed number: its digits, and those behind the point, if there is one.
abbrev pub number : Bytes × Option Bytes → Bytes
number (front, none) = front
number (front, some back) = front ++ (b'.' ∷ back)

abbrev pub AreDigits : Bytes → Type 0
AreDigits = All (λ c. is_digit c ≡ true)

abbrev pub IsNumber : Bytes × Option Bytes → Type 0
IsNumber (front, none) = AreDigits front
IsNumber (front, some back) = AreDigits front × AreDigits back

module _ {ℓ} {D : Type ℓ} ⦃d : Decimal D⦄ where
  -- The value of the digits of a number, from the left.
  abbrev pub whole_value : D → Bytes → D
  whole_value value [] = value
  whole_value value (c ∷ cs) = whole_value (d.add (d.mul value d.ten) (d.digit (c - b'0'))) cs

  abbrev pub fraction_value : D → D → Bytes → D
  fraction_value place value [] = value
  fraction_value place value (c ∷ cs) =
      let next = d.mul place d.tenth in
      fraction_value next (d.add value (d.mul (d.digit (c - b'0')) next)) cs

  abbrev pub value_of : Bytes × Option Bytes → D
  value_of (front, none) = whole_value d.nought front
  value_of (front, some back) = fraction_value d.one (whole_value d.nought front) back

  whole_part-append :
      (front rest : Bytes) (value : D)
      → AreDigits front
      → whole_part value (front ++ rest) ≡ whole_part (whole_value value front) rest
  unfolding whole_part
  whole_part-append [] rest value h = refl
  whole_part-append (c ∷ front) rest value h = rw h.0 (whole_part-append front rest _ h.1)

  whole_part-Stops : (p : Bytes) (value : D) → Stops p → whole_part value p ≡ (value, p)
  unfolding whole_part
  whole_part-Stops [] value s = refl
  whole_part-Stops (c ∷ p) value s = rw s.0 refl

  whole_part_point : (p : Bytes) (value : D) → whole_part value (b'.' ∷ p) ≡ (value, b'.' ∷ p)
  unfolding whole_part
  whole_part_point p value = refl

  fraction-append :
      (back rest : Bytes) (place value : D)
      → AreDigits back
      → Stops rest
      → fraction place value (back ++ rest) ≡ (fraction_value place value back, rest)
  unfolding fraction
  fraction-append [] [] place value h s = refl
  fraction-append [] (c ∷ rest) place value h s = rw s.0 refl
  fraction-append (c ∷ back) rest place value h s = rw h.0 (fraction-append back rest _ _ h.1 s)

  after_whole-Stops : (p : Bytes) (value : D) → Stops p → after_whole (value, p) ≡ (value, p)
  after_whole-Stops [] value s = refl
  after_whole-Stops (c ∷ p) value s = rw s.1 refl

  -- `parse_double` reads a printed number whole, up to what it cannot go on with.
  pub parse_double-number :
      (n : Bytes × Option Bytes) (rest : Bytes)
      → IsNumber n
      → Stops rest
      → parse_double (number n ++ rest) ≡ (value_of n, rest)
  unfolding parse_double
  parse_double-number (front, none) rest h s =
      ap after_whole (whole_part-append front rest d.nought h ∙ whole_part-Stops rest _ s)
      ∙ after_whole-Stops rest _ s
  parse_double-number (front, some back) rest h s =
      ap (λ t. after_whole (whole_part d.nought t)) (append_assoc front (b'.' ∷ back) rest)
      ∙ (ap after_whole (
            whole_part-append front (b'.' ∷ (back ++ rest)) d.nought h.0
            ∙ whole_part_point (back ++ rest) _)
          ∙ fraction-append back rest d.one _ h.1 s)
