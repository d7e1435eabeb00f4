-- ===== src/ChallengeClient/Earlier.antt =====
-- Client.cpp: the earlier copy of the client. It moves the pointer over the ticker and the mark behind
-- it at once, and over the two marks behind the bid.
use native.Mathlib.Nat.{zero-add}
use advanced_cpp_p1g.Base.Text.{Bytes}
use advanced_cpp_p1g.Base.{
  ℕ, zero, suc, ◌+◌, ◌≡◌, refl, sym, ap, ◌∙◌, inl, inr, true, false, Option, none, some, List, [],
  ◌∷◌, ◌++◌, length, ltb, arith, Bool-cases, Option-cases,
}
use advanced_cpp_p1g.Base.Fault.{◌>>=◌}
use advanced_cpp_p1g.Base.Int.{ℤ}
use advanced_cpp_p1g.ChallengeClient.{
  starts, pass, jump, next_line, behind, Decimal, Entry, parse_double, parse_entry, Parsed, entries,
  stale, out_of_fuel, sec_mark, id_mark, target_mark, parse_packet, prices_of, Memory, Response,
  answer, entries_in, new_id, new_target,
}

module _ {ℓ} {D : Type ℓ} ⦃d : Decimal D⦄ where
  unfoldable pub parse_entry_at_once : Bytes → Option (Entry D × Bytes)
  parse_entry_at_once p = do
    p₁ ← jump 4 p
    (ticker, p₂) ← pass 7 p₁
    p₃ ← jump (7 + 5) p₁
    p₆ ← jump (1 + 4) (parse_double {D = D} p₃).1
    some (
      record { ticker = ticker; bid = (parse_double p₃).0; ask = (parse_double p₆).0 },
      (parse_double {D = D} p₆).1,
    )

  unfoldable pub parse_packet_at_once : ℕ → List (Entry D) → Bytes → Parsed D
  parse_packet_at_once zero found p = out_of_fuel
  parse_packet_at_once (suc fuel) found [] = entries found
  parse_packet_at_once (suc fuel) found (c ∷ p) = elim (ltb (length found) 10) [
    | false ↦ entries found
    | true ↦ elim (starts sec_mark (c ∷ p)) [
      | false ↦ parse_packet_at_once fuel found (next_line (c ∷ p))
      | true ↦ elim (parse_entry_at_once (c ∷ p)) [
        | none ↦ stale
        | some (e, rest) ↦ parse_packet_at_once fuel (found ++ (e ∷ [])) (next_line rest)
      ]
    ]
  ]

  -- A turn of the loop in `main`.
  unfoldable pub answer_at_once : (Bytes → ℤ) → Memory → Bytes → Option (Memory × Response D)
  answer_at_once atoi m packet = do
    es ← entries_in {D = D} atoi (parse_packet_at_once (suc (length packet)) [] packet)
    target ← new_target m.target (behind target_mark packet)
    t ← target
    let id = new_id atoi m.challenge_id (behind id_mark packet)
    some (
      record { challenge_id = id; target = some t },
      record { challenge_id = id; target = t; bid = (prices_of t es).0; ask = (prices_of t es).1 },
    )

pub jump-suc : (n c : ℕ) (p : Bytes) → jump (suc n) (c ∷ p) ≡ jump n p
jump-suc n c p = elim (Option-cases (pass n p)) [
  | inl e ↦ rw e refl
  | inr ((front, rest), e) ↦ rw e refl
]

jump-add : (m n : ℕ) (p : Bytes) → jump (m + n) p ≡ (jump m p >>= jump n)
jump-add zero n p = ap (λ k. jump k p) (zero-add n)
jump-add (suc m) n [] = let e : suc m + n ≡ suc (m + n) = omega arith in ap (λ k. jump k []) e
jump-add (suc m) n (c ∷ p) =
    let e : suc m + n ≡ suc (m + n) = omega arith in
    ap (λ k. jump k (c ∷ p)) e
    ∙ (jump-suc (m + n) c p ∙ (jump-add m n p ∙ ap (λ o. o >>= jump n) (sym (jump-suc m c p))))

jump-jump :
    (m n : ℕ) (p front rest : Bytes) → pass m p ≡ some (front, rest) → jump (m + n) p ≡ jump n rest
jump-jump m n p front rest f = jump-add m n p ∙ rw f refl

jump-none : (m n : ℕ) (p : Bytes) → jump m p ≡ none → jump (m + n) p ≡ none
jump-none m n p f = jump-add m n p ∙ rw f refl

jump-some : (m n : ℕ) (p rest : Bytes) → jump m p ≡ some rest → jump (m + n) p ≡ jump n rest
jump-some m n p rest f = jump-add m n p ∙ rw f refl

module _ {ℓ} {D : Type ℓ} ⦃d : Decimal D⦄ where
  same_entry : (p : Bytes) → parse_entry_at_once p ≡ parse_entry {D = D} p
  unfolding parse_entry_at_once parse_entry
  same_entry p = elim (Option-cases (jump 4 p)) [
    | inl e ↦ rw e refl
    | inr (p₁, e) ↦ elim (Option-cases (pass 7 p₁)) [
      | inl f ↦ rw (e, f) refl
      | inr ((ticker, p₂), f) ↦ elim (Option-cases (jump 5 p₂)) [
        | inl g ↦ rw (e, f, jump-jump 7 5 p₁ ticker p₂ f, g) refl
        | inr (p₃, g) ↦ elim (Option-cases (jump 1 (parse_double {D = D} p₃).1)) [
          | inl h ↦
              rw
                (
                  e,
                  f,
                  jump-jump 7 5 p₁ ticker p₂ f,
                  g,
                  h,
                  jump-none 1 4 (parse_double {D = D} p₃).1 h,
                )
                refl
          | inr (p₅, h) ↦
              rw
                (
                  e,
                  f,
                  jump-jump 7 5 p₁ ticker p₂ f,
                  g,
                  h,
                  jump-some 1 4 (parse_double {D = D} p₃).1 p₅ h,
                )
                refl
        ]
      ]
    ]
  ]

  same_packet :
      (fuel : ℕ) (found : List (Entry D)) (p : Bytes)
      → parse_packet_at_once fuel found p ≡ parse_packet fuel found p
  unfolding parse_packet_at_once parse_packet
  same_packet zero found p = refl
  same_packet (suc fuel) found [] = refl
  same_packet (suc fuel) found (c ∷ p) = elim (Bool-cases (ltb (length found) 10)) [
    | inl e ↦ elim (Bool-cases (starts sec_mark (c ∷ p))) [
      | inl f ↦ elim (Option-cases (parse_entry {D = D} (c ∷ p))) [
        | inl g ↦ rw (parse_packet_at_once, parse_packet, e, f, same_entry (c ∷ p), g) refl
        | inr ((x, rest), g) ↦
            rw (parse_packet_at_once, parse_packet, e, f, same_entry (c ∷ p), g)
              (same_packet fuel (found ++ (x ∷ [])) (next_line rest))
      ]
      | inr f ↦
          rw (parse_packet_at_once, parse_packet, e, f) (same_packet fuel found (next_line (c ∷ p)))
    ]
    | inr e ↦ rw (parse_packet_at_once, parse_packet, e) refl
  ]

  -- The two copies of the client make the same of every packet, well formed or not.
  pub answer_at_once-eq-answer :
      (atoi : Bytes → ℤ) (m : Memory) (packet : Bytes)
      → answer_at_once {D = D} atoi m packet ≡ answer atoi m packet
  unfolding answer_at_once answer
  answer_at_once-eq-answer atoi m packet = rw (same_packet (suc (length packet)) [] packet) refl
