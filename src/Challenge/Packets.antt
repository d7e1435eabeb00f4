-- ===== src/Challenge/Packets.antt =====
-- The splitting of a broadcast message into packets, and what a receiver gets.
use native.Mathlib.Nat.{lt-div-mul-add, div-mul-le_self, add-mul, zero-add, zero-mul}
use advanced_cpp_p1g.Base.{
  ℕ, zero, suc, ◌+◌, ◌-◌, ◌*◌, ◌/◌, ◌≤◌, ◌<◌, min, ◌≡◌, refl, sym, subst, inl, inr, ltb, Bool-cases,
  ltb→lt, ap, ap₂, ◌∙◌, List, [], ◌∷◌, ◌++◌, length, take, drop, length-take, length-drop, arith,
  All,
}
use advanced_cpp_p1g.Challenge.{fragment, fragments_from, fragments, max_udp_payload}

module _ {ℓ} {A : Type ℓ} where
  -- What a receiver that gets the packets in order has.
  abbrev pub joined : List (List A) → List A
  joined [] = []
  joined (p ∷ ps) = p ++ joined ps

  -- A packet that is worth sending, and that the payload has room for.
  abbrev pub IsPacket : ℕ → List A → Type 0
  IsPacket size p = (0 < length p) × (length p ≤ size)

  take_nil : (n : ℕ) → take {A = A} n [] ≡ []
  take_nil zero = refl
  take_nil (suc n) = refl

  drop_nil : (n : ℕ) → drop {A = A} n [] ≡ []
  drop_nil zero = refl
  drop_nil (suc n) = refl

  take-add : (n k : ℕ) (xs : List A) → take n xs ++ take k (drop n xs) ≡ take (n + k) xs
  take-add zero k xs = ap (λ j. take j xs) (sym (zero-add k))
  take-add (suc n) k [] = take_nil k ∙ sym (take_nil (suc n + k))
  take-add (suc n) k (x ∷ xs) =
      let e : suc (n + k) ≡ suc n + k = omega arith in
      ap (λ ys. x ∷ ys) (take-add n k xs) ∙ ap (λ j. take j (x ∷ xs)) e

  drop-add : (n k : ℕ) (xs : List A) → drop k (drop n xs) ≡ drop (n + k) xs
  drop-add zero k xs = ap (λ j. drop j xs) (sym (zero-add k))
  drop-add (suc n) k [] = drop_nil k ∙ sym (drop_nil (suc n + k))
  drop-add (suc n) k (x ∷ xs) =
      let e : suc (n + k) ≡ suc n + k = omega arith in drop-add n k xs ∙ ap (λ j. drop j (x ∷ xs)) e

  take_all : (n : ℕ) (xs : List A) → length xs ≤ n → take n xs ≡ xs
  take_all zero [] h = refl
  take_all zero (x ∷ xs) h = absurd (omega arith)
  take_all (suc n) [] h = refl
  take_all (suc n) (x ∷ xs) h = ap (λ ys. x ∷ ys) (take_all n xs (omega arith))

  take-min : (n k : ℕ) (xs : List A) → length xs ≤ k → take (min n k) xs ≡ take n xs
  take-min n k xs h = elim (Bool-cases (ltb n k)) [
    | inl g ↦ ap (λ j. take j xs) (omega (arith, ltb→lt n k g))
    | inr g ↦
        let whole : min n k ≡ k = ground arith in
        let long : length xs ≤ n = ground arith in
        ap (λ j. take j xs) whole ∙ take_all k xs h ∙ sym (take_all n xs long)
  ]

  fragment_eq : (size : ℕ) (m : List A) (i : ℕ) → fragment size m i ≡ take size (drop (i * size) m)
  fragment_eq size m i =
      take-min size (length m - i * size) (drop (i * size) m)
        (omega (arith, length-drop (i * size) m))

  joined-fragments_from :
      (size : ℕ) (m : List A) (i n : ℕ)
      → joined (fragments_from size m i n) ≡ take (n * size) (drop (i * size) m)
  joined-fragments_from size m i zero = ap (λ j. take j (drop (i * size) m)) (sym (zero-mul size))
  joined-fragments_from size m i (suc n) =
      let start : i * size + size ≡ (i + 1) * size = omega (arith, add-mul i 1 size) in
      let total : size + n * size ≡ suc n * size = omega (arith, add-mul 1 n size) in
      let next : take (n * size) (drop ((i + 1) * size) m)
          ≡ take (n * size) (drop size (drop (i * size) m)) =
        ap (take (n * size)) (ap (λ k. drop k m) (sym start) ∙ sym (drop-add (i * size) size m)) in
      ap₂ (λ x y. x ++ y) (fragment_eq size m i) (joined-fragments_from size m (i + 1) n ∙ next)
      ∙ take-add size (n * size) (drop (i * size) m)
      ∙ ap (λ k. take k (drop (i * size) m)) total

  fragments_from-All :
      (size : ℕ) (m : List A) (i n : ℕ)
      → 0 < size
      → (i + n) * size < length m + size
      → All (IsPacket size) (fragments_from size m i n)
  fragments_from-All size m i zero h b = tt
  fragments_from-All size m i (suc n) h b =
      let left = drop (i * size) m in
      let here : length (fragment size m i) ≡ min (min size (length m - i * size)) (length left) =
        length-take (min size (length m - i * size)) left in
      let room : i * size < length m = omega (arith, b, add-mul i (suc n) size, add-mul 1 n size) in
      let shift : i + suc n ≡ i + 1 + n = omega arith in
      (
        (omega (arith, here, h, room, length-drop (i * size) m), omega (arith, here)),
        fragments_from-All size m (i + 1) n h (subst (λ k. k * size < length m + size) shift b),
      )

  -- For a payload of at least one byte, the packets of a message in order are the message, none is
  -- empty and none is larger than the payload.
  pub fragments-joined :
      (size : ℕ) (m : List A)
      → 0 < size
      → (joined (fragments size m) ≡ m) × All (IsPacket size) (fragments size m)
  unfolding fragments
  fragments-joined size m h =
      let n = (length m + size - 1) / size in
      let above : length m + size - 1 < n * size + size = lt-div-mul-add h in
      let start : 0 * size ≡ 0 = zero-mul size in
      let below : n * size ≤ length m + size - 1 = div-mul-le_self (length m + size - 1) size in
      (
        joined-fragments_from size m 0 n
            ∙ ap (λ k. take (n * size) (drop k m)) start
            ∙ take_all (n * size) m (omega (arith, above, h)),
        fragments_from-All size m 0 n h (omega (arith, below, h)),
      )

  -- A message that is not empty and fits into a payload is one packet.
  pub fragments_single :
      (m : List A)
      → 0 < length m
      → length m ≤ max_udp_payload
      → fragments max_udp_payload m ≡ m ∷ []
  unfolding fragments
  fragments_single m h k =
      let n : (length m + max_udp_payload - 1) / max_udp_payload ≡ 1 = omega arith in
      let e : fragment max_udp_payload m 0 ≡ m =
        fragment_eq max_udp_payload m 0 ∙ take_all max_udp_payload m k in
      rw (n, e) refl
