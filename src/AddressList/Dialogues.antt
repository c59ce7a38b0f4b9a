-- ===== src/AddressList/Dialogues.antt =====
-- 01DataStruct/Project/ADDRESS_LIST/address_list.c: what the search prints.
use demo_class.Common.{
  ℕ, ◌<◌, ◌≡◌, refl, ◌↔◌, ◌⊎◌, inl, inr, Bool, Bool-cases, Option-cases, true, false, ◌||◌, arith,
  Option, some, List, [], ◌∷◌, ◌++◌, length, ltb, if◌then◌else◌,
}
use demo_class.CString.{c_string, strstr}
use demo_class.CString.Search.{strstr-some, strstr-occurs}
use demo_class.AddressList.{
  LinkMan, Console, same_string, contains, is_found, max_name, ask, find_loop, find_link_man,
  display_link_man,
}

-- the string in a buffer has the key in it
abbrev pub Occurs : List ℕ → List ℕ → Type 0
Occurs buf key = (pre : List ℕ) × (post : List ℕ) × (c_string buf ≡ pre ++ (key ++ post))

-- what the search is for: the whole name, or a part of one of five fields
abbrev pub Matches : List ℕ → LinkMan → Type 0
Matches key e =
    (c_string e.name ≡ key)
    ⊎ (Occurs e.tel key
        ⊎ (Occurs e.email key
            ⊎ (Occurs e.company key ⊎ (Occurs e.address key ⊎ Occurs e.post key))))

same_string-eq : (xs ys : List ℕ) → same_string xs ys ≡ true → xs ≡ ys
unfolding same_string
same_string-eq [] [] h = refl
same_string-eq [] (y ∷ ys) h = absurd (cc)
same_string-eq (x ∷ xs) [] h = absurd (cc)
same_string-eq (x ∷ xs) (y ∷ ys) h =
    let same : x ≡ y = ground arith in
    let rest = same_string-eq xs ys (ground arith) in rw (same, rest) refl

same_string_refl : (xs : List ℕ) → same_string xs xs ≡ true
unfolding same_string
same_string_refl [] = refl
same_string_refl (x ∷ xs) = let rest = same_string_refl xs in ground arith

contains-Occurs : (buf key : List ℕ) → contains buf key ≡ true → Occurs buf key
unfolding contains
contains-Occurs buf key h = elim (Option-cases (strstr key (c_string buf))) [
  | inl missing ↦ absurd (let h' = rw (missing, contains) at h in cc)
  | inr ((n, rest), found) ↦
      let (pre, e) = strstr-some key (c_string buf) n rest found in (pre, rest, e)
]

Occurs-contains : (buf key : List ℕ) → Occurs buf key → contains buf key ≡ true
unfolding contains
Occurs-contains buf key (pre, post, e) =
    let (r, found) = strstr-occurs key pre post in rw (contains, e, found) refl

||-cases : (a b : Bool) → (a || b) ≡ true → (a ≡ true) ⊎ (b ≡ true)
||-cases true b h = inl refl
||-cases false b h = inr h

is_found-Matches : (key : List ℕ) (e : LinkMan) → is_found key e ≡ true → Matches key e
unfolding is_found
is_found-Matches key e h = elim (||-cases (same_string (c_string e.name) key) _ h) [
  | inl y ↦ inl (same_string-eq (c_string e.name) key y)
  | inr h₁ ↦ elim (||-cases (contains e.tel key) _ h₁) [
    | inl y ↦ inr (inl (contains-Occurs e.tel key y))
    | inr h₂ ↦ elim (||-cases (contains e.email key) _ h₂) [
      | inl y ↦ inr (inr (inl (contains-Occurs e.email key y)))
      | inr h₃ ↦ elim (||-cases (contains e.company key) _ h₃) [
        | inl y ↦ inr (inr (inr (inl (contains-Occurs e.company key y))))
        | inr h₄ ↦ elim (||-cases (contains e.address key) _ h₄) [
          | inl y ↦ inr (inr (inr (inr (inl (contains-Occurs e.address key y)))))
          | inr h₅ ↦ inr (inr (inr (inr (inr (contains-Occurs e.post key h₅)))))
        ]
      ]
    ]
  ]
]

Matches-is_found : (key : List ℕ) (e : LinkMan) → Matches key e → is_found key e ≡ true
unfolding is_found
Matches-is_found key e (inl y) = let s = same_string_refl key in rw (y, s) refl
Matches-is_found key e (inr (inl y)) = let s = Occurs-contains e.tel key y in ground arith
Matches-is_found key e (inr (inr (inl y))) = let s = Occurs-contains e.email key y in ground arith
Matches-is_found key e (inr (inr (inr (inl y)))) =
    let s = Occurs-contains e.company key y in ground arith
Matches-is_found key e (inr (inr (inr (inr (inl y))))) =
    let s = Occurs-contains e.address key y in ground arith
Matches-is_found key e (inr (inr (inr (inr (inr y))))) =
    let s = Occurs-contains e.post key y in ground arith

-- the entries that are found, in their order
unfoldable pub matching : List ℕ → List LinkMan → List LinkMan
matching key [] = []
matching key (e ∷ es) = let rest = matching key es in if is_found key e then e ∷ rest else rest

abbrev pub is_some_man : List LinkMan → Bool
is_some_man [] = false
is_some_man (e ∷ es) = true

module _ {D : Type 0} (c : Console D) where
  find_loop-matching :
      (key : List ℕ) (es : List LinkMan) (flag : Bool) (d : D)
      → find_loop c key es flag d ≡ (
        flag || is_some_man (matching key es),
        display_link_man c c.print_info (matching key es) d,
      )
  unfolding find_loop matching display_link_man
  find_loop-matching key [] true d = refl
  find_loop-matching key [] false d = refl
  find_loop-matching key (e ∷ es) true d = elim (Bool-cases (is_found key e)) [
    | inl y ↦ rw (y, find_loop) (find_loop-matching key es true (c.print_info e d))
    | inr n ↦ rw (n, find_loop) (find_loop-matching key es true d)
  ]
  find_loop-matching key (e ∷ es) false d = elim (Bool-cases (is_found key e)) [
    | inl y ↦ rw (y, find_loop) (find_loop-matching key es true (c.print_info e d))
    | inr n ↦ rw (n, find_loop) (find_loop-matching key es false d)
  ]

  reported :
      (es : List LinkMan) (d : D)
      → ◌≡◌ {A = Option D}
          (some (
            if is_some_man es
            then display_link_man c c.print_info es d
            else c.not_found (display_link_man c c.print_info es d)))
          (some
            (elim es [ [] ↦ c.not_found d | x ∷ xs ↦ display_link_man c c.print_info (x ∷ xs) d ]))
  unfolding display_link_man
  reported [] d = refl
  reported (e ∷ es) d = refl

  -- For a word of less than 20 bytes the search prints the entries with that name, or with the word in the
  -- telephone number, email, company, address or post code, in their order, as `display_link_man` goes
  -- through a list; and says so if there is none.
  pub find_link_man-matching :
      (es : List LinkMan) (d : D)
      → length (c.word d).0 < max_name
      → (find_link_man c es d
          ≡ some (elim (matching (c.word d).0 es) [
            | [] ↦ c.not_found (c.word d).1
            | x ∷ xs ↦ display_link_man c c.print_info (x ∷ xs) (c.word d).1
          ]))
        × ((e : LinkMan) → (is_found (c.word d).0 e ≡ true) ↔ Matches (c.word d).0 e)
  unfolding find_link_man ask
  find_link_man-matching es d short =
      let fits : ltb (length (c.word d).0) max_name ≡ true = ground arith in
      let looped = find_loop-matching (c.word d).0 es false (c.word d).1 in
      (
        rw (fits, looped) (reported (matching (c.word d).0 es) (c.word d).1),
        λ e. (is_found-Matches (c.word d).0 e, Matches-is_found (c.word d).0 e),
      )
