-- ===== src/ChallengeClient/Reply.antt =====
-- final_project/client.cpp: the line that is printed into `out` for a response, and what is sent of it.
-- How an int and a double with six decimals are printed are parameters.
use advanced_cpp_p1g.Base.{
  Option, none, some, [], ◌∷◌, ◌++◌, ltb, ◌==◌, if◌then◌else◌, length, take,
}
use advanced_cpp_p1g.Base.Text.{Bytes}
use advanced_cpp_p1g.Base.Int.{ℤ}
use advanced_cpp_p1g.Challenge.{response_mark}
use advanced_cpp_p1g.ChallengeClient.{Response}

module _ {ℓ} {D : Type ℓ} (show_id : ℤ → Bytes) (show_six : D → Bytes) (trader_name : Bytes) where
  -- "CHALLENGE_RESPONSE %d %s %.6f %.6f %s", without the end of the line
  unfoldable pub response_line : Response D → Bytes
  response_line r =
      response_mark
      ++ (b' '
          ∷ (show_id r.challenge_id
              ++ (b' '
                  ∷ (r.target
                      ++ (b' '
                          ∷ (show_six r.bid
                              ++ (b' ' ∷ (show_six r.ask ++ (b' ' ∷ trader_name)))))))))

-- The `n` bytes of `out` that are sent, where `n` is the length of the whole text. snprintf writes at
-- most 127 of them, and a NUL; `none`: the bytes reach past `out`.
unfoldable pub sent_of : Bytes → Option Bytes
sent_of text =
    let n = length text in
    if ltb n 128 then some text else (if n == 128 then some (take 127 text ++ (0 ∷ [])) else none)
