-- ===== src/CString/Search.antt =====
-- `strstr` and `strchr` on strings whose parts are known.
use demo_class.Common.{
  ℕ, suc, ◌≡◌, refl, ap, ◌∙◌, inl, inr, Bool-cases, Option-cases, true, false, some-injective,
  bind_some, none, some, List, [], ◌∷◌, ◌++◌, arith, ◌==◌,
}
use demo_class.Links.Seg.{has}
use demo_class.CString.{c_string, behind, strstr, strchr}

pub c_string-append : (xs rest : List ℕ) → has 0 xs ≡ false → c_string (xs ++ 0 ∷ rest) ≡ xs
unfolding c_string
c_string-append [] rest h = refl
c_string-append (x ∷ xs) rest h =
    let used : (x == 0) ≡ false = ground arith in
    rw used (ap (λ ys. x ∷ ys) (c_string-append xs rest (ground arith)))

pub behind-append : (ks xs : List ℕ) → behind ks (ks ++ xs) ≡ some xs
unfolding behind
behind-append [] xs = refl
behind-append (k ∷ ks) xs =
    let same : (k == k) ≡ true = ground arith in rw same (behind-append ks xs)

pub strchr-append :
    (c : ℕ) (name rest : List ℕ) → has c name ≡ false → strchr (name ++ c ∷ rest) c ≡ some name
unfolding strchr
strchr-append c [] rest h = let same : (c == c) ≡ true = ground arith in rw same refl
strchr-append c (x ∷ name) rest h =
    let other : (x == c) ≡ false = ground arith in
    rw (other, strchr-append c name rest (ground arith)) refl

pub strstr-found :
    (key rest : List ℕ) (x : ℕ) (xs : List ℕ)
    → behind key (x ∷ xs) ≡ some rest
    → strstr key (x ∷ xs) ≡ some (0, rest)
unfolding strstr
strstr-found key rest x xs e = rw (e, strstr) refl

pub strstr-later :
    (key rest : List ℕ) (n x : ℕ) (xs : List ℕ)
    → behind key (x ∷ xs) ≡ none
    → strstr key xs ≡ some (n, rest)
    → strstr key (x ∷ xs) ≡ some (suc n, rest)
unfolding strstr
strstr-later key rest n x xs e e' = rw (e, strstr, e') refl

behind-some : (ks xs rest : List ℕ) → behind ks xs ≡ some rest → xs ≡ ks ++ rest
unfolding behind
behind-some [] xs rest e = some-injective e
behind-some (k ∷ ks) [] rest e = absurd (cc)
behind-some (k ∷ ks) (x ∷ xs) rest e = elim (Bool-cases (k == x)) [
  | inl y ↦
      let same : k ≡ x = ground arith in
      let later = behind-some ks xs rest (rw y at e) in rw (same, later) refl
  | inr n ↦ absurd (let e' = rw n at e in cc)
]

-- What `strstr` finds is an occurrence.
pub strstr-some :
    (key xs : List ℕ) (n : ℕ) (rest : List ℕ)
    → strstr key xs ≡ some (n, rest)
    → (pre : List ℕ) × (xs ≡ pre ++ (key ++ rest))
unfolding strstr
strstr-some key [] n rest e =
    let (r, found, q) = bind_some (behind key []) (λ (r : List ℕ). some (0, r)) (n, rest) e in
    ([], behind-some key [] rest (found ∙ ap (λ (p : ℕ × List ℕ). some p.1) (some-injective q)))
strstr-some key (x ∷ xs) n rest e = elim (Option-cases (behind key (x ∷ xs))) [
  | inl missing ↦
      let ((m, r), found, q) =
        bind_some (strstr key xs) (λ (r : ℕ × List ℕ). some (suc r.0, r.1)) (n, rest)
          (rw (missing, strstr) at e) in
      let same : r ≡ rest = ap (λ (p : ℕ × List ℕ). p.1) (some-injective q) in
      let (pre, later) = strstr-some key xs m r found in
      (
        x ∷ pre,
        ap (λ (zs : List ℕ). x ∷ zs) (later ∙ ap (λ (zs : List ℕ). pre ++ (key ++ zs)) same),
      )
  | inr (r, here) ↦
      let q = some-injective (rw (here, strstr) at e) in
      ([], behind-some key (x ∷ xs) rest (here ∙ ap (λ (p : ℕ × List ℕ). some p.1) q))
]

strstr-front : (key xs rest : List ℕ) → behind key xs ≡ some rest → strstr key xs ≡ some (0, rest)
unfolding strstr
strstr-front key [] rest e = rw e refl
strstr-front key (x ∷ xs) rest e = strstr-found key rest x xs e

-- Where there is an occurrence, `strstr` finds one.
pub strstr-occurs :
    (key pre post : List ℕ) → (r : ℕ × List ℕ) × (strstr key (pre ++ (key ++ post)) ≡ some r)
strstr-occurs key [] post =
    ((0, post), strstr-front key (key ++ post) post (behind-append key post))
strstr-occurs key (x ∷ pre) post =
    let xs = pre ++ (key ++ post) in
    let ((n, rest), later) = strstr-occurs key pre post in
    elim (Option-cases (behind key (x ∷ xs))) [
      | inl missing ↦ ((suc n, rest), strstr-later key rest n x xs missing later)
      | inr (r, here) ↦ ((0, r), strstr-found key r x xs here)
    ]
