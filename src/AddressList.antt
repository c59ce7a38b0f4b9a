-- ===== src/AddressList.antt =====
-- 01DataStruct/Project/ADDRESS_LIST/address_list.c, save.c and main.c: an address list. A `link_man` holds
-- the bytes of its buffers; the list of links is the list of its structures, in order. The console and the
-- file are a parameter, which gives what `scanf` asks for. `none` is undefined behaviour: a buffer that is
-- written or read behind its end, or a block that is used after `free`.
pub mod Fields
pub mod Menu
pub mod Book
pub mod Dialogues
mod Tests
use demo_class.Common.{
  ℕ, zero, suc, ◌+◌, Bool, true, false, ◌&&◌, ◌||◌, Option, none, some, ◌>>=◌, List, [], ◌∷◌, ◌++◌,
  length, drop, ltb, leb, ◌==◌, if◌then◌else◌,
}
use demo_class.Common.Int.{ℤ, pos, negsuc}
use demo_class.Links.Seg.{has}
use demo_class.CString.{c_string, strstr}

pub record LinkMan : Type 0 where
  pub name : List ℕ
  pub tel : List ℕ
  pub email : List ℕ
  pub company : List ℕ
  pub address : List ℕ
  pub post : List ℕ
  pub spell : List ℕ

-- what `scanf` reads, what is printed, and the file: whether `fopen` succeeds, and `fwrite`
pub record Console (D : Type 0) : Type 0 where
  pub word : D → List ℕ × D
  pub number : D → ℤ × D
  pub letter : D → ℕ × D
  pub print_info : LinkMan → D → D
  pub print_linkman : LinkMan → D → D
  pub not_found : D → D
  pub fopen : D → Bool × D
  pub fwrite : List ℕ → D → D

abbrev pub max_name : ℕ
max_name = 20

unfoldable pub is_int : ℤ → ℕ → Bool
is_int (pos n) k = n == k
is_int (negsuc n) k = false

unfoldable pub same_string : List ℕ → List ℕ → Bool
same_string [] [] = true
same_string [] (y ∷ ys) = false
same_string (x ∷ xs) [] = false
same_string (x ∷ xs) (y ∷ ys) = x == y && same_string xs ys

-- `scanf("%s")` of a word into a buffer
unfoldable pub scan_into : List ℕ → List ℕ → Option (List ℕ)
scan_into buf word =
    if ltb (length word) (length buf) then some (word ++ 0 ∷ drop (length word + 1) buf) else none

-- `memmove` of a word without its NUL
unfoldable pub move_into : List ℕ → List ℕ → Option (List ℕ)
move_into buf word =
    if leb (length word) (length buf) then some (word ++ drop (length word) buf) else none

-- `print_info` is defined: the six fields that it prints hold a NUL; `spell` is not printed
unfoldable pub is_printable : LinkMan → Bool
is_printable e =
    has 0 e.name
    && (has 0 e.tel && (has 0 e.email && (has 0 e.company && (has 0 e.address && has 0 e.post))))

-- `strcmp` with the name or the telephone number
unfoldable pub is_named : List ℕ → LinkMan → Bool
unfolding c_string same_string
is_named key e = same_string (c_string e.name) key || same_string (c_string e.tel) key

unfoldable pub contains : List ℕ → List ℕ → Bool
unfolding strstr c_string
contains buf key = elim (strstr key (c_string buf)) [ none ↦ false | some r ↦ true ]

-- the tests of `find_link_man`
unfoldable pub is_found : List ℕ → LinkMan → Bool
unfolding c_string same_string contains
is_found key e =
    same_string (c_string e.name) key
    || (contains e.tel key
        || (contains e.email key
            || (contains e.company key || (contains e.address key || contains e.post key))))

-- the `switch` of `update_link_man`: the new email goes into the name
unfoldable pub change : ℤ → List ℕ → LinkMan → Option LinkMan
unfolding move_into is_int
change i w e =
    if is_int i 1 || is_int i 4
    then (move_into e.name w >>= λ b. some (record e { name = b }))
    else if is_int i 2
    then (move_into e.spell w >>= λ b. some (record e { spell = b }))
    else if is_int i 3
    then (move_into e.tel w >>= λ b. some (record e { tel = b }))
    else if is_int i 5
    then (move_into e.company w >>= λ b. some (record e { company = b }))
    else if is_int i 6
    then (move_into e.address w >>= λ b. some (record e { address = b }))
    else if is_int i 7
    then (move_into e.post w >>= λ b. some (record e { post = b }))
    else some e

-- the choices that ask for a word
unfoldable pub is_choice : ℤ → Bool
is_choice (pos n) = ltb 0 n && ltb n 8
is_choice (negsuc n) = false

unfoldable pub is_yes : ℕ → Bool
is_yes c = c == b'Y' || c == b'y'

module _ {D : Type 0} (c : Console D) where
  -- a word into a local buffer of 20 bytes
  unfoldable pub ask : D → Option (List ℕ × D)
  ask d = let (w, d') = c.word d in if ltb (length w) max_name then some (w, d') else none

  unfoldable pub ask_into : List ℕ → D → Option (List ℕ × D)
  unfolding scan_into
  ask_into buf d = let (w, d') = c.word d in scan_into buf w >>= λ b. some (b, d')

  -- `new` is the block of `malloc`. Behind an N it is filled again, after `free`.
  unfoldable pub add_link_man : LinkMan → List LinkMan → D → Option (List LinkMan × D)
  unfolding ask_into is_yes
  add_link_man new es d = ask_into new.name d >>= λ name. ask_into new.spell name.1 >>= λ spell.
      ask_into new.tel spell.1 >>= λ tel. ask_into new.email tel.1 >>= λ email.
      ask_into new.company email.1 >>= λ company. ask_into new.address company.1 >>= λ address.
      ask_into new.post address.1 >>= λ post.
      let (l, d') = c.letter post.1 in
      let man : LinkMan = record {
        name = name.0;
        tel = tel.0;
        email = email.0;
        company = company.0;
        address = address.0;
        post = post.0;
        spell = spell.0;
      } in
      if is_yes l
      then some (es ++ man ∷ [], d')
      else if l == b'N' || l == b'n'
      then none
      else some (es, d')

  -- what happens to an entry that is found: each way through the inner loop returns
  unfoldable pub update_entry : LinkMan → D → Option (LinkMan × D)
  unfolding ask change is_choice is_printable
  update_entry e d =
      let (i, d₁) = c.number (c.print_info e d) in
      (if is_choice i then ask d₁ else some ([], d₁)) >>= λ w. change i w.0 e >>= λ e'.
      if is_printable e' then some (e', (c.letter (c.print_info e' w.1)).1) else none

  unfoldable pub update_loop : List ℕ → List LinkMan → D → Option (List LinkMan × D)
  unfolding update_entry is_named
  update_loop key [] d = some ([], c.not_found d)
  update_loop key (e ∷ es) d = elim (is_named key e) [
    | true ↦ update_entry e d >>= λ r. some (r.0 ∷ es, r.1)
    | false ↦ update_loop key es d >>= λ r. some (e ∷ r.0, r.1)
  ]

  -- the loop of the deletion returns at its first entry
  unfoldable pub delete_loop : List ℕ → List LinkMan → D → List LinkMan × D
  unfolding is_named is_yes
  delete_loop key [] d = ([], d)
  delete_loop key (e ∷ es) d = elim (is_named key e) [
    | true ↦ let (l, d') = c.letter (c.print_info e d) in (if is_yes l then es else e ∷ es, d')
    | false ↦ (e ∷ es, c.not_found d)
  ]

  unfoldable pub update_link_man : List LinkMan → D → Option (List LinkMan × D)
  unfolding ask update_loop delete_loop is_int
  update_link_man es d =
      let (i, d₁) = c.number d in
      if is_int i 1
      then (ask d₁ >>= λ w. update_loop w.0 es w.1)
      else if is_int i 2
      then (ask d₁ >>= λ w. some (delete_loop w.0 es w.1))
      else some (es, d₁)

  unfoldable pub find_loop : List ℕ → List LinkMan → Bool → D → Bool × D
  unfolding is_found
  find_loop key [] flag d = (flag, d)
  find_loop key (e ∷ es) flag d = elim (is_found key e) [
    | true ↦ find_loop key es true (c.print_info e d)
    | false ↦ find_loop key es flag d
  ]

  unfoldable pub find_link_man : List LinkMan → D → Option D
  unfolding ask find_loop
  find_link_man es d = ask d >>= λ w.
      let (flag, d') = find_loop w.0 es false w.1 in some (if flag then d' else c.not_found d')

  unfoldable pub display_link_man : (LinkMan → D → D) → List LinkMan → D → D
  display_link_man todo [] d = d
  display_link_man todo (e ∷ es) d = display_link_man todo es (todo e d)
