-- ===== src/AddressList/Menu.antt =====
-- 01DataStruct/Project/ADDRESS_LIST/save.c and main.c: the file, and the menu.
use demo_class.Common.{
  ℕ, Bool, true, false, Option, none, some, ◌>>=◌, List, [], ◌∷◌, if◌then◌else◌,
}
use demo_class.Common.Int.{ℤ, pos, negsuc}
use demo_class.CString.{c_string}
use demo_class.Links.Seg.{has}
use demo_class.AddressList.{
  LinkMan, Console, is_int, add_link_man, update_link_man, find_link_man, display_link_man,
}

abbrev pub dashes : List ℕ
dashes =
    b'-' ∷ b'-' ∷ b'-' ∷ b'-' ∷ b'-' ∷ b'-' ∷ b'-' ∷ b'-' ∷ b'-' ∷ b'-' ∷ b'-' ∷ b'-' ∷ b'-' ∷ b'-'
    ∷ b'-' ∷ b'-' ∷ b'-' ∷ b'-' ∷ b'-' ∷ b'-' ∷ b'-' ∷ b'-' ∷ b'-' ∷ b'-' ∷ []

-- `node_del` of the first entry until there is none
unfoldable pub list_destory : List LinkMan → List LinkMan
list_destory [] = []
list_destory (e ∷ es) = list_destory es

module _ {D : Type 0} (c : Console D) where
  -- `strlen` of a field without a NUL is undefined
  unfoldable pub save_field : List ℕ → D → Option D
  unfolding c_string
  save_field buf d =
      if has 0 buf then some (c.fwrite (10 ∷ []) (c.fwrite (c_string buf) d)) else none

  -- the post code is not written
  unfoldable pub save_loop : List LinkMan → D → Option D
  unfolding save_field
  save_loop [] d = some d
  save_loop (e ∷ es) d = save_field e.name d >>= λ d₁. save_field e.tel d₁ >>= λ d₂.
      save_field e.email d₂ >>= λ d₃. save_field e.company d₃ >>= λ d₄.
      save_field e.address d₄ >>= λ d₅.
      save_field e.spell d₅ >>= λ d₆. save_loop es (c.fwrite dashes d₆)

  unfoldable pub save : List LinkMan → D → Option (ℤ × D)
  unfolding save_loop
  save es d =
      let (opened, d') = c.fopen d in
      if opened then (save_loop es d' >>= λ d₁. some (pos 0, d₁)) else some (negsuc 0, d')

  -- one choice of the menu, with the block that `malloc` gives if it is an addition, and whether the program
  -- goes on
  unfoldable pub choose : LinkMan → List LinkMan → D → Option (Bool × List LinkMan × D)
  unfolding list_destory save
  choose new es d =
      let (i, d₁) = c.number d in
      if is_int i 1
      then (add_link_man c new es d₁ >>= λ r. some (true, r.0, r.1))
      else if is_int i 2
      then (update_link_man c es (display_link_man c c.print_linkman es d₁) >>= λ r.
          some (true, r.0, r.1))
      else if is_int i 3
      then (find_link_man c es d₁ >>= λ d₂. some (true, es, d₂))
      else if is_int i 4
      then some (true, es, display_link_man c c.print_linkman es d₁)
      else if is_int i 5
      then (save es d₁ >>= λ r. some (true, es, r.1))
      else if is_int i 0
      then some (false, list_destory es, d₁)
      else some (true, es, d₁)

  -- the loop of `main`, a round for each block
  unfoldable pub main : List LinkMan → List LinkMan → D → Option (List LinkMan × D)
  unfolding choose
  main [] es d = some (es, d)
  main (new ∷ news) es d =
      choose new es d >>= λ r. elim r.0 [ true ↦ main news r.1 r.2 | false ↦ some (r.1, r.2) ]
