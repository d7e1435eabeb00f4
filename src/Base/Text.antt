-- ===== src/Base/Text.antt =====
-- Texts (std::string, and a char* up to its NUL) as lists of bytes.
use Prim.Native.Nat.{ℕ}
use mathlib.Core.Path.{◌≡◌, refl}
use mathlib.Core.Bool.{Bool, true, false, ◌&&◌}
use mathlib.Core.List.{List, [], ◌∷◌}
use native.Mathlib.Omega.{arith}
use advanced_cpp_p1g.Base.Tests.{◌==◌}
use advanced_cpp_p1g.Base.Assoc.{Eq}

abbrev pub Bytes : Type 0
Bytes = List ℕ

-- std::memcmp of two texts of one length, and operator== of std::string
abbrev pub same_bytes : Bytes → Bytes → Bool
same_bytes [] [] = true
same_bytes (x ∷ xs) (y ∷ ys) = (x == y) && same_bytes xs ys
same_bytes _ _ = false

pub same_bytes_iff :
    (xs ys : Bytes) → ((same_bytes xs ys ≡ true) → xs ≡ ys) × ((xs ≡ ys) → same_bytes xs ys ≡ true)
same_bytes_iff [] [] = ((λ h. refl), (λ h. refl))
same_bytes_iff [] (y ∷ ys) = ((λ h. cc), (λ h. cc))
same_bytes_iff (x ∷ xs) [] = ((λ h. cc), (λ h. cc))
same_bytes_iff (x ∷ xs) (y ∷ ys) =
    let ih = same_bytes_iff xs ys in ((λ h. ground (arith, ih.0)), (λ h. ground (arith, ih.1)))

instance abbrev pub bytes_eq : Eq Bytes
bytes_eq = record { beq = same_bytes; beq_iff = same_bytes_iff }
