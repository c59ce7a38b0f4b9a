-- ===== src/CString.antt =====
-- What the sources use of the C library on strings: a string is the bytes of a buffer before the first NUL.
pub mod Search
use demo_class.Common.{
  ℕ, zero, suc, true, false, Option, none, some, ◌>>=◌, List, [], ◌∷◌, ◌==◌, if◌then◌else◌,
}

-- the bytes of a string in a buffer
unfoldable pub c_string : List ℕ → List ℕ
c_string [] = []
c_string (b ∷ bs) = let rest = c_string bs in if b == 0 then [] else b ∷ rest

-- what stands behind a prefix
unfoldable pub behind : List ℕ → List ℕ → Option (List ℕ)
behind [] xs = some xs
behind (k ∷ ks) [] = none
behind (k ∷ ks) (x ∷ xs) = let rest = behind ks xs in if k == x then rest else none

-- `strstr`: the place of the first occurrence, and what stands behind it
unfoldable pub strstr : List ℕ → List ℕ → Option (ℕ × List ℕ)
strstr key [] = behind key [] >>= λ rest. some (0, rest)
strstr key (x ∷ xs) =
    let later = strstr key xs >>= λ r. some (suc r.0, r.1) in
    elim (behind key (x ∷ xs)) [ none ↦ later | some rest ↦ some (0, rest) ]

-- `strchr`: what stands before the first occurrence
unfoldable pub strchr : List ℕ → ℕ → Option (List ℕ)
strchr [] c = none
strchr (x ∷ xs) c =
    let later = strchr xs c >>= λ before. some (x ∷ before) in if x == c then some [] else later
