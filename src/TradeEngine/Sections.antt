-- ===== src/TradeEngine/Sections.antt =====
-- final_project/Buffer.cpp: the sections of the buffer. The mapper threads write into the section at
-- `starting_index`; `clear_values` frees the others and moves on.
use advanced_cpp_p1g.Base.{
  ℕ, zero, suc, ◌+◌, ◌*◌, ◌%◌, ◌<◌, ◌≡◌, refl, ◌∙◌, arith, Bool-cases, inl, inr, Bool, true, false,
  Option, none, some, List, [], ◌∷◌, ltb, ◌==◌, not, if◌then◌else◌,
}
use advanced_cpp_p1g.Base.Fault.{◌>>=◌}

abbrev pub buffer_space : ℕ
buffer_space = 3

-- The fields that `clear_values` goes by; `clearables` has a flag for each section.
pub record Buffer : Type 0 where
  pub packet_size : ℕ
  pub starting_index : ℕ
  pub clearables : List Bool

-- The first loop, from section `i` on: all sections but the current one can be cleared.
abbrev pub mark_sections : Buffer → ℕ → ℕ → List Bool
mark_sections b i zero = []
mark_sections b i (suc n) = not (i * b.packet_size == b.starting_index) ∷ mark_sections b (i + 1) n

-- delete &this->buffer[k]: the strings were made by one new[], so none can be deleted alone.
abbrev pub delete_string : ℕ → Option ℕ
delete_string k = none

-- The strings of a section, from the first index on; the number of strings that were freed.
abbrev pub clear_section : ℕ → ℕ → Option ℕ
clear_section k zero = some 0
clear_section k (suc n) = delete_string k >>= λ freed. clear_section (k + 1) n

-- The second loop, from section `i` on.
unfoldable pub clear_sections : ℕ → ℕ → List Bool → Option ℕ
clear_sections packet_size i [] = some 0
clear_sections packet_size i (flag ∷ flags) =
    (if flag then clear_section (i * packet_size) packet_size else some 0) >>= λ freed.
    clear_sections packet_size (i + 1) flags

-- The end of `clearValues`.
unfoldable pub advance : Buffer → Buffer
advance b =
    let next = b.starting_index + b.packet_size in
    record b { starting_index = if ltb (b.packet_size * buffer_space) next then 0 else next }

unfoldable pub clear_values : Buffer → Option Buffer
clear_values b = do
  let flags = mark_sections b 0 buffer_space
  freed ← clear_sections b.packet_size 0 flags
  some (advance (record b { clearables = flags }))

-- `k` turns of the main loop, as far as the current section goes.
abbrev pub turns : ℕ → Buffer → Buffer
turns zero b = b
turns (suc k) b = advance (turns k b)

advance_size : (k : ℕ) (b : Buffer) → (turns k b).packet_size ≡ b.packet_size
unfolding advance
advance_size zero b = refl
advance_size (suc k) b = advance_size k b

advance_step :
    (b : Buffer) (r : ℕ)
    → 0 < b.packet_size
    → r < 4
    → b.starting_index ≡ b.packet_size * r
    → (advance b).starting_index ≡ b.packet_size * ((r + 1) % 4)
unfolding advance
advance_step b zero size few at = ground (arith, size, at)
advance_step b (suc zero) size few at = ground (arith, size, at)
advance_step b (suc (suc zero)) size few at = ground (arith, size, at)
advance_step b (suc (suc (suc zero))) size few at = ground (arith, size, at)
advance_step b (suc (suc (suc (suc r)))) size few at = absurd (omega arith)

-- From index 0 on, the current section moves through four places, of which the last one is the end of
-- the buffer of three sections: in every fourth turn it lies outside.
pub turns-starting_index :
    (k : ℕ) (b : Buffer)
    → 0 < b.packet_size
    → b.starting_index ≡ 0
    → (turns k b).starting_index ≡ b.packet_size * (k % 4)
turns-starting_index zero b size start = omega (arith, start)
turns-starting_index (suc k) b size start =
    let same = advance_size k b in
    let ih : (turns k b).starting_index ≡ (turns k b).packet_size * (k % 4) =
      rw same (turns-starting_index k b size start) in
    let next : (k % 4 + 1) % 4 ≡ suc k % 4 = omega arith in
    advance_step (turns k b) (k % 4) (omega (arith, same, size)) (omega arith) ih
    ∙ rw (same, next) refl

clear_section-none : (k n : ℕ) → 0 < n → clear_section k n ≡ none
clear_section-none k zero h = absurd (omega arith)
clear_section-none k (suc n) h = refl

-- `clearValues` has no defined result: at most one section is in use, so it deletes a string that was
-- not made alone.
pub clear_values-none : (b : Buffer) → 0 < b.packet_size → clear_values b ≡ none
unfolding clear_values clear_sections
clear_values-none b size =
    let p = b.packet_size in
    elim (Bool-cases (0 == b.starting_index)) [
      | inl e ↦
          let used : (0 * p == b.starting_index) ≡ true = ground (arith, e) in
          let other : (1 * p == b.starting_index) ≡ false = ground (arith, e, size) in
          rw (clear_values, clear_sections, used, other, clear_section-none (1 * p) p size) refl
      | inr e ↦
          let other : (0 * p == b.starting_index) ≡ false = ground (arith, e) in
          rw (clear_values, clear_sections, other, clear_section-none (0 * p) p size) refl
    ]
