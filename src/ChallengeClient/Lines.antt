-- ===== src/ChallengeClient/Lines.antt =====
-- Which bytes stand in the lines of a broadcast, and where the marks are found.
use advanced_cpp_p1g.Base.Text.{Bytes}
use advanced_cpp_p1g.Base.{
  ℕ, ◌≡◌, ◌≢◌, refl, ◌∙◌, true, some, [], ◌∷◌, ◌++◌, length, arith, All, All-map, All-append,
}
use advanced_cpp_p1g.ChallengeClient.Scan.{pass-append, behind-line, AreDigits}
use advanced_cpp_p1g.ChallengeClient.{pass, behind, is_digit, id_mark, target_mark}

abbrev pub IsPlain : Bytes → Type 0
IsPlain = All (λ c. (c ≢ b'\n') × (c ≢ b':'))

pub no_colon : (cs : Bytes) → IsPlain cs → All (λ c. c ≢ b':') cs
no_colon cs h = All-map (λ c (k : (c ≢ b'\n') × (c ≢ b':')). k.1) cs h

pub digit_no_colon : (c : ℕ) → is_digit c ≡ true → c ≢ b':'
digit_no_colon c h e = ground arith

pub digits_no_colon : (cs : Bytes) → AreDigits cs → All (λ c. c ≢ b':') cs
digits_no_colon cs h = All-map (λ c (k : is_digit c ≡ true). digit_no_colon c k) cs h

pub no_newline : (cs : Bytes) → IsPlain cs → All (λ c. c ≢ b'\n') cs
no_newline cs h = All-map (λ c (k : (c ≢ b'\n') × (c ≢ b':')). k.0) cs h

-- The two lines behind the securities.
abbrev pub last_lines : Bytes → Bytes → Bytes
last_lines id_text target =
    (id_mark ++ id_text) ++ (b'\n' ∷ ((target_mark ++ target) ++ (b'\n' ∷ [])))

pub pass_seven :
    (ticker rest : Bytes) → length ticker ≡ 7 → pass 7 (ticker ++ rest) ≡ some (ticker, rest)
pass_seven ticker rest seven = rw (← seven) (pass-append ticker rest)

pub behind_id :
    (id_text target : Bytes)
    → behind id_mark (last_lines id_text target)
      ≡ some (id_text ++ (b'\n' ∷ ((target_mark ++ target) ++ (b'\n' ∷ []))))
unfolding behind
behind_id i t = refl

pub behind_target :
    (id_text target : Bytes)
    → All (λ c. c ≢ b'T') id_text
    → behind target_mark (last_lines id_text target) ≡ some (target ++ (b'\n' ∷ []))
behind_target i t h =
    behind-line b'T' target_mark (id_mark ++ i) ((target_mark ++ t) ++ (b'\n' ∷ [])) (omega arith)
      refl (All-append (λ (c : ℕ). c ≢ b'T') id_mark i (omega arith) h)
    ∙ last t
  where
    last :
        (t : Bytes)
        → behind target_mark ((target_mark ++ t) ++ (b'\n' ∷ [])) ≡ some (t ++ (b'\n' ∷ []))
    last t = unfold behind in refl
