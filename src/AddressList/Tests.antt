-- ===== src/AddressList/Tests.antt =====
-- A console that is given its answers, and two people.
use demo_class.Common.{
  ℕ, ◌≡◌, ◌↔◌, false, ◌>>=◌, inr, refl, arith, true, Option, none, some, List, [], ◌∷◌, ◌++◌,
  replicate,
}
use demo_class.Common.Int.{ℤ, pos}
use demo_class.CString.{c_string}
use demo_class.Links.Seg.{has}
use demo_class.AddressList.{
  LinkMan, Console, change, is_named, is_found, ask, add_link_man, update_entry, update_loop,
  delete_loop, update_link_man, find_link_man, display_link_man,
}
use demo_class.AddressList.Menu.{save, choose, main}
use demo_class.AddressList.Fields.{change-tail}
use demo_class.AddressList.Dialogues.{Matches, matching, find_link_man-matching}

-- the words still to be read, and the telephone numbers and bytes that have been put out
abbrev Io : Type 0
Io = List (List ℕ) × List (List ℕ)

abbrev next_word : Io → List ℕ × Io
next_word ([], out) = ([], ([], out))
next_word (w ∷ ws, out) = (w, (ws, out))

abbrev first : List ℕ → ℕ
first [] = 0
first (b ∷ bs) = b

abbrev console : Console Io
console = record {
  word = next_word;
  number = λ d. (pos (first (next_word d).0), (next_word d).1);
  letter = λ d. (first (next_word d).0, (next_word d).1);
  print_info = λ e d. (d.0, d.1 ++ c_string e.name ∷ []);
  print_linkman = λ e d. d;
  not_found = λ d. (d.0, d.1 ++ [] ∷ []);
  fopen = λ d. (true, d);
  fwrite = λ bytes d. d;
}

abbrev padded : ℕ → List ℕ → List ℕ
padded n word = word ++ replicate n 0

abbrev man : List ℕ → ℕ → LinkMan
man name n = record {
  name = padded n name;
  tel = padded 14 (b'7' ∷ []);
  email = padded 30 [];
  company = padded 30 [];
  address = padded 50 [];
  post = padded 7 [];
  spell = padded 20 [];
}

abbrev anna : LinkMan
anna = man (b'a' ∷ b'n' ∷ b'n' ∷ b'a' ∷ []) 16

abbrev bo : LinkMan
bo = man (b'b' ∷ b'o' ∷ []) 18

change-tail_example :
    (e' : LinkMan) × (change (pos 4) (b'b' ∷ b'o' ∷ []) anna ≡ some e')
    × (c_string e'.name ≡ b'b' ∷ b'o' ∷ b'n' ∷ b'a' ∷ [])
    × (e'.email ≡ anna.email)
change-tail_example =
    change-tail anna (b'a' ∷ b'n' ∷ b'n' ∷ b'a' ∷ []) (replicate 15 0) (b'b' ∷ b'o' ∷ []) 4
      (inr refl) refl refl refl (omega arith)

find_link_man-matching_example :
    (find_link_man console (anna ∷ bo ∷ []) ((b'7' ∷ []) ∷ [], [])
      ≡ some (elim (matching (b'7' ∷ []) (anna ∷ bo ∷ [])) [
        | [] ↦ console.not_found ([], [])
        | x ∷ xs ↦ display_link_man console console.print_info (x ∷ xs) ([], [])
      ]))
    × ((e : LinkMan) → (is_found (b'7' ∷ []) e ≡ true) ↔ Matches (b'7' ∷ []) e)
find_link_man-matching_example =
    find_link_man-matching console (anna ∷ bo ∷ []) ((b'7' ∷ []) ∷ [], []) (omega arith)

-- the answers of a round that adds a man, and of one that changes the name of the first to a shorter one
abbrev answers : List (List ℕ)
answers =
    (1 ∷ [])
    ∷ (b'c' ∷ [])
    ∷ (b'c' ∷ [])
    ∷ (b'8' ∷ [])
    ∷ (b'm' ∷ [])
    ∷ (b'x' ∷ [])
    ∷ (b'y' ∷ [])
    ∷ (b'z' ∷ [])
    ∷ (b'Y' ∷ [])
    ∷ (2 ∷ [])
    ∷ (1 ∷ [])
    ∷ (b'7' ∷ [])
    ∷ (1 ∷ [])
    ∷ (b'e' ∷ [])
    ∷ (b'Y' ∷ [])
    ∷ []

abbrev left : Option (List LinkMan × Io)
left = main console (anna ∷ anna ∷ []) (anna ∷ []) (answers, [])

abbrev names : Option (List LinkMan × Io) → List (List ℕ)
names none = []
names (some ([], d)) = []
names (some (e ∷ [], d)) = c_string e.name ∷ []
names (some (e ∷ e' ∷ es, d)) = c_string e.name ∷ c_string e'.name ∷ []

two_rounds : names left ≡ (b'e' ∷ b'n' ∷ b'n' ∷ b'a' ∷ []) ∷ (b'c' ∷ []) ∷ []
unfolding main choose add_link_man update_link_man update_loop update_entry display_link_man
    c_string
two_rounds = refl

-- a deletion of the second of two people finds nobody
not_first :
    update_link_man console (anna ∷ bo ∷ []) ((2 ∷ []) ∷ (b'b' ∷ b'o' ∷ []) ∷ [], [])
    ≡ some (anna ∷ bo ∷ [], ([], [] ∷ []))
unfolding update_link_man delete_loop ask is_named
not_first = refl

-- a spell of one letter in a block of `malloc` whose other bytes are not 0: a longer one takes its NUL, which is
-- undefined only when the list is saved
abbrev spelled : Option (ℤ × Io)
spelled =
    update_entry console (record anna { spell = b's' ∷ 0 ∷ replicate 18 1 })
      ((2 ∷ []) ∷ (b's' ∷ b't' ∷ []) ∷ (b'Y' ∷ []) ∷ [], [])
    >>= λ r. save console (r.0 ∷ []) r.1

changed :
    (update_entry console
        (record anna { spell = b's' ∷ 0 ∷ replicate 18 1 })
        ((2 ∷ []) ∷ (b's' ∷ b't' ∷ []) ∷ (b'Y' ∷ []) ∷ [], [])
      >>= λ r. some (has 0 r.0.spell))
    ≡ some false
unfolding update_entry change ask
changed = refl

unsaved : spelled ≡ none
unfolding update_entry change ask save
unsaved = refl
