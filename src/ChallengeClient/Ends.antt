-- ===== src/ChallengeClient/Ends.antt =====
-- The loop over a packet ends: every turn moves the pointer on.
use advanced_cpp_p1g.Base.Text.{Bytes}
use advanced_cpp_p1g.Base.{
  ℕ, zero, suc, ◌-◌, ◌≤◌, ◌<◌, ◌≡◌, ◌≢◌, refl, sym, ◌∙◌, inl, inr, Option, none, some, List, [],
  ◌∷◌, ◌++◌, length, ltb, ◌==◌, arith, Bool-cases, Option-cases,
}
use advanced_cpp_p1g.ChallengeClient.Earlier.{jump-suc}
use advanced_cpp_p1g.ChallengeClient.{
  starts, pass, jump, next_line, is_digit, Decimal, Entry, whole_part, fraction, after_whole,
  parse_double, parse_entry, out_of_fuel, sec_mark, parse_packet,
}

length-next_line : (p : Bytes) → length (next_line p) ≤ length p
length-next_line [] = omega arith
length-next_line (c ∷ p) = elim (Bool-cases (c == b'\n')) [
  | inl e ↦ rw e (omega arith)
  | inr e ↦ rw e (omega (arith, length-next_line p))
]

next_line-lt : (c : ℕ) (p : Bytes) → length (next_line (c ∷ p)) < length (c ∷ p)
next_line-lt c p = elim (Bool-cases (c == b'\n')) [
  | inl e ↦ rw e (omega arith)
  | inr e ↦ rw e (omega (arith, length-next_line p))
]

-- What is left of a text is no longer than it was, less what was passed.
abbrev LeavesAtMost : ℕ → Option Bytes → Type 0
LeavesAtMost n none = Unit
LeavesAtMost n (some rest) = length rest ≤ n

less : (p : Bytes) (o : Option Bytes) → LeavesAtMost (length p) o → LeavesAtMost (suc (length p)) o
less p none h = tt
less p (some rest) h = omega (arith, h)

jump-LeavesAtMost : (n : ℕ) (p : Bytes) → LeavesAtMost (length p) (jump n p)
jump-LeavesAtMost zero p = omega arith
jump-LeavesAtMost (suc n) [] = tt
jump-LeavesAtMost (suc n) (c ∷ p) = rw (jump-suc n c p) (less p (jump n p) (jump-LeavesAtMost n p))

jump-le : (n : ℕ) (p rest : Bytes) → jump n p ≡ some rest → length rest ≤ length p
jump-le n p rest e = rw e at (jump-LeavesAtMost n p)

module _ {ℓ} {D : Type ℓ} ⦃d : Decimal D⦄ where
  length-whole_part : (value : D) (p : Bytes) → length (whole_part value p).1 ≤ length p
  unfolding whole_part
  length-whole_part value [] = omega arith
  length-whole_part value (c ∷ p) = elim (Bool-cases (is_digit c)) [
    | inl e ↦
        rw e (omega (arith, length-whole_part (d.add (d.mul value d.ten) (d.digit (c - b'0'))) p))
    | inr e ↦ rw e (omega arith)
  ]

  length-fraction : (place value : D) (p : Bytes) → length (fraction place value p).1 ≤ length p
  unfolding fraction
  length-fraction place value [] = omega arith
  length-fraction place value (c ∷ p) = elim (Bool-cases (is_digit c)) [
    | inl e ↦ rw e (
        omega (
          arith,
          length-fraction (d.mul place d.tenth)
              (d.add value (d.mul (d.digit (c - b'0')) (d.mul place d.tenth))) p,
        ))
    | inr e ↦ rw e (omega arith)
  ]

  length-after_whole : (value : D) (p : Bytes) → length (after_whole (value, p)).1 ≤ length p
  length-after_whole value [] = omega arith
  length-after_whole value (c ∷ p) = elim (Bool-cases (c == b'.')) [
    | inl e ↦ rw e (omega (arith, length-fraction d.one value p))
    | inr e ↦ rw e (omega arith)
  ]

module _ {ℓ} (D : Type ℓ) ⦃d : Decimal D⦄ where
  length-parse_double : (p : Bytes) → length (parse_double {D = D} p).1 ≤ length p
  unfolding parse_double
  length-parse_double p =
      let w = whole_part d.nought p in
      omega (arith, length-whole_part d.nought p, length-after_whole w.0 w.1)

  -- An entry leaves less of the text.
  abbrev EntryLeaves : ℕ → Option (Entry D × Bytes) → Type 0
  EntryLeaves n none = Unit
  EntryLeaves n (some (e, rest)) = length rest ≤ n

  pass-le :
      (n : ℕ) (p ticker rest : Bytes) → pass n p ≡ some (ticker, rest) → length rest ≤ length p
  pass-le n p ticker rest e = let there : jump n p ≡ some rest = rw e refl in jump-le n p rest there

  parse_entry-leaves : (c : ℕ) (p : Bytes) → EntryLeaves (length p) (parse_entry {D = D} (c ∷ p))
  unfolding parse_entry
  parse_entry-leaves c p = elim (Option-cases (jump 4 (c ∷ p))) [
    | inl e ↦ rw e tt
    | inr (p₁, e) ↦ elim (Option-cases (pass 7 p₁)) [
      | inl f ↦ rw (e, f) tt
      | inr ((ticker, p₂), f) ↦ elim (Option-cases (jump 5 p₂)) [
        | inl g ↦ rw (e, f, g) tt
        | inr (p₃, g) ↦ elim (Option-cases (jump 1 (parse_double {D = D} p₃).1)) [
          | inl h ↦ rw (e, f, g, h) tt
          | inr (p₅, h) ↦ elim (Option-cases (jump 4 p₅)) [
            | inl k ↦ rw (e, f, g, h, k) tt
            | inr (p₆, k) ↦
                rw (e, f, g, h, k)
                  (omega (
                    arith,
                    jump-le 3 p p₁ (sym (jump-suc 3 c p) ∙ e),
                    pass-le 7 p₁ ticker p₂ f,
                    jump-le 5 p₂ p₃ g,
                    length-parse_double p₃,
                    jump-le 1 (parse_double {D = D} p₃).1 p₅ h,
                    jump-le 4 p₅ p₆ k,
                    length-parse_double p₆,
                  ))
          ]
        ]
      ]
    ]
  ]

  -- With more turns than there are bytes, the loop over the packet reaches its end: it never stops
  -- for want of turns.
  pub parse_packet_ends :
      (fuel : ℕ) (found : List (Entry D)) (p : Bytes)
      → length p < fuel
      → parse_packet fuel found p ≢ out_of_fuel
  unfolding parse_packet
  parse_packet_ends zero found p h = absurd (omega arith)
  parse_packet_ends (suc fuel) found [] h = λ e. cc
  parse_packet_ends (suc fuel) found (c ∷ p) h = elim (Bool-cases (ltb (length found) 10)) [
    | inl e ↦ elim (Bool-cases (starts sec_mark (c ∷ p))) [
      | inl f ↦ elim (Option-cases (parse_entry {D = D} (c ∷ p))) [
        | inl g ↦ rw (parse_packet, e, f, g) (λ k. cc)
        | inr ((x, rest), g) ↦
            let left = rw g at (parse_entry-leaves c p) in
            rw (parse_packet, e, f, g)
              (parse_packet_ends fuel (found ++ (x ∷ [])) (next_line rest)
                (omega (arith, left, length-next_line rest)))
      ]
      | inr f ↦
          rw (parse_packet, e, f)
            (parse_packet_ends fuel found (next_line (c ∷ p)) (omega (arith, next_line-lt c p)))
    ]
    | inr e ↦ rw (parse_packet, e) (λ k. cc)
  ]
