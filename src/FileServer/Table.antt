-- ===== src/FileServer/Table.antt =====
-- 03NetPro_thread/06Socket/04File_Server/server.c: the table of the clients, through the calls that
-- change it.
use demo_class.Common.{
  ◌⊎◌, ap, true, false, ltb, lt_or_ge, ◌-◌, ◌&&◌, Option-cases, ℕ, zero, suc, ◌+◌, ◌<◌, ◌≤◌, ◌≡◌,
  refl, some, List, [], ◌∷◌, ◌++◌, drop, arith, inl, inr, Bool-cases, length, take, get_elem?, ◌==◌,
  if◌then◌else◌,
}
use demo_class.Common.Int.{ℤ, pos, negsuc}
use demo_class.Behaviour.{Behaviour, undefined, gives, and_then}
use demo_class.FileServer.{
  answer_client, send_file, finds, handler_failed, Answer, got, interrupted, failed, get_filename,
  file_send2, read_again, client_handler, handle_request, Net, Server, is_fd, is_free, close_loop,
  place_loop, server_close, accept_client,
}

-- the clients in the table, and how often a descriptor is there
unfoldable pub taken : List ℤ → ℕ
taken [] = 0
taken (pos n ∷ xs) = 1 + taken xs
taken (negsuc n ∷ xs) = taken xs

unfoldable pub occurs : ℕ → List ℤ → ℕ
unfolding is_fd
occurs fd [] = 0
occurs fd (x ∷ xs) = (if is_fd x fd then 1 else 0) + occurs fd xs

-- the table has its length, a descriptor is in one slot at most, and `ol_con` counts the clients
abbrev pub IsTable : {D : Type 0} → ℕ → Server D → Type 0
IsTable max s =
    (length s.cli_fds ≡ max) × ((fd : ℕ) → occurs fd s.cli_fds ≤ 1) × (s.ol_con ≡ taken s.cli_fds)

taken-length : (xs : List ℤ) → taken xs ≤ length xs
unfolding taken
taken-length [] = (omega arith)
taken-length (pos n ∷ xs) = let ih = taken-length xs in ground arith
taken-length (negsuc n ∷ xs) = let ih = taken-length xs in ground arith

length-close_loop : (k fd : ℕ) (xs : List ℤ) → length (close_loop k fd xs) ≡ length xs
unfolding close_loop
length-close_loop zero fd xs = refl
length-close_loop (suc k) fd [] = refl
length-close_loop (suc k) fd (x ∷ xs) = let ih = length-close_loop k fd xs in ground arith

pub occurs-close_loop : (k fd p : ℕ) (xs : List ℤ) → occurs p (close_loop k fd xs) ≤ occurs p xs
unfolding close_loop occurs is_fd
occurs-close_loop zero fd p xs = (omega arith)
occurs-close_loop (suc k) fd p [] = (omega arith)
occurs-close_loop (suc k) fd p (pos n ∷ xs) = let ih = occurs-close_loop k fd p xs in ground arith
occurs-close_loop (suc k) fd p (negsuc n ∷ xs) =
    let ih = occurs-close_loop k fd p xs in ground arith

taken-close_loop :
    (k fd : ℕ) (xs : List ℤ) → taken (close_loop k fd xs) + occurs fd (take k xs) ≡ taken xs
unfolding close_loop occurs is_fd taken
taken-close_loop zero fd xs = (omega arith)
taken-close_loop (suc k) fd [] = (omega arith)
taken-close_loop (suc k) fd (pos n ∷ xs) = let ih = taken-close_loop k fd xs in ground arith
taken-close_loop (suc k) fd (negsuc n ∷ xs) = let ih = taken-close_loop k fd xs in ground arith

occurs-take : (k fd : ℕ) (xs : List ℤ) → occurs fd (take k xs) ≤ occurs fd xs
unfolding occurs
occurs-take zero fd xs = (omega arith)
occurs-take (suc k) fd [] = (omega arith)
occurs-take (suc k) fd (x ∷ xs) = let ih = occurs-take k fd xs in ground arith

occurs-get_elem? :
    (k i fd : ℕ) (xs : List ℤ) → i < k → get_elem? xs i ≡ some (pos fd) → 1 ≤ occurs fd (take k xs)
unfolding occurs is_fd
occurs-get_elem? zero i fd xs lt e = ground arith
occurs-get_elem? (suc k) zero fd [] lt e = ground arith
occurs-get_elem? (suc k) zero fd (pos n ∷ xs) lt e = ground arith
occurs-get_elem? (suc k) zero fd (negsuc n ∷ xs) lt e = ground arith
occurs-get_elem? (suc k) (suc i) fd [] lt e = ground arith
occurs-get_elem? (suc k) (suc i) fd (x ∷ xs) lt e =
    let ih = occurs-get_elem? k i fd xs (omega arith) e in ground arith

length-place_loop : (fd : ℕ) (xs : List ℤ) → length (place_loop fd xs) ≡ length xs
unfolding place_loop is_free
length-place_loop fd [] = refl
length-place_loop fd (pos n ∷ xs) = let ih = length-place_loop fd xs in ground arith
length-place_loop fd (negsuc n ∷ xs) = ground arith

taken-place_loop :
    (fd : ℕ) (xs : List ℤ) → taken xs < length xs → taken (place_loop fd xs) ≡ taken xs + 1
unfolding place_loop is_free taken
taken-place_loop fd [] lt = ground arith
taken-place_loop fd (pos n ∷ xs) lt = let ih = taken-place_loop fd xs (ground arith) in ground arith
taken-place_loop fd (negsuc n ∷ xs) lt = ground arith

occurs-place_loop :
    (fd p : ℕ) (xs : List ℤ)
    → occurs p (place_loop fd xs) ≤ occurs p xs + (if fd == p then 1 else 0)
unfolding place_loop is_free occurs is_fd
occurs-place_loop fd p [] = ground arith
occurs-place_loop fd p (pos n ∷ xs) = let ih = occurs-place_loop fd p xs in ground arith
occurs-place_loop fd p (negsuc n ∷ xs) = ground arith

occurs-get : (i fd : ℕ) (xs : List ℤ) → get_elem? xs i ≡ some (pos fd) → 1 ≤ occurs fd xs
occurs-get i fd xs e =
    let here = occurs-get_elem? (suc i) i fd xs (omega arith) e in
    let all = occurs-take (suc i) fd xs in ground arith

-- a request whose name, up to the space, has 255 bytes or more
abbrev pub HasLongName : List ℕ → Type 0
HasLongName buf = (r : List ℕ × List ℕ) × (get_filename buf ≡ some r) × 255 ≤ length r.0

-- what a client that has sent these bytes leaves in the buffer
abbrev pub filled : Answer → List ℕ → List ℕ
filled (got bytes) buf = bytes ++ drop (length bytes) buf
filled interrupted buf = []
filled failed buf = []

module _ {D : Type 0} (net : Net D) where
  -- Of a client in one of the slots that the loop reads, `server_close` leaves a table.
  pub server_close-IsTable :
      (max i fd : ℕ) (s : Server D)
      → IsTable max s
      → s.ol_con < max
      → i < s.ol_con + 1
      → get_elem? s.cli_fds i ≡ some (pos fd)
      → (s' : Server D) × (server_close net fd s ≡ gives s') × IsTable max s'
  unfolding server_close
  server_close-IsTable max i fd s (len, once, count) room lt e =
      let k = s.ol_con + 1 in
      let l = length-close_loop k fd s.cli_fds in
      let t = taken-close_loop k fd s.cli_fds in
      let some_here = occurs-get_elem? k i fd s.cli_fds lt e in
      let most = occurs-take k fd s.cli_fds in
      let one = once fd in
      let inside : ltb s.ol_con (length s.cli_fds) ≡ true = ground arith in
      let s' : Server D = record s {
        cli_fds = close_loop k fd s.cli_fds;
        rd_set = λ p. if p == fd && finds k fd s.cli_fds then false else s.rd_set p;
        ol_con = s.ol_con - 1;
        sys = net.close fd s.sys;
      } in
      (
        s',
        rw inside refl,
        (
          ground arith,
          λ p. let o = occurs-close_loop k fd p s.cli_fds in let b = once p in ground arith,
          ground arith,
        ),
      )

  -- A new client gets a slot of the table while there are less than `max`, and the connection is closed
  -- where there are not.
  pub accept_client-IsTable :
      (max fd : ℕ) (warning : List ℕ) (s : Server D)
      → IsTable max s
      → occurs fd s.cli_fds ≡ 0
      → IsTable max (accept_client net max warning fd s)
  unfolding accept_client
  accept_client-IsTable max fd warning s (len, once, count) fresh =
      let most = taken-length s.cli_fds in
      let l = length-place_loop fd s.cli_fds in
      elim (Bool-cases (s.ol_con == max)) [
        | inl e ↦ rw e (len, once, count)
        | inr e ↦
            let t = taken-place_loop fd s.cli_fds (ground arith) in
            rw e (
              ground arith,
              λ p. let o = occurs-place_loop fd p s.cli_fds in let b = once p in ground arith,
              ground arith,
            )
      ]

  -- the code ends in a table
  abbrev Ends : ℕ → Behaviour (ℤ × Server D) → Type 0
  Ends max b = (r : ℤ × Server D) × (b ≡ gives r) × IsTable max r.1

  closes-Ends :
      (max i fd : ℕ) (s : Server D) (f : Server D → ℤ × Server D)
      → ((s' : Server D) → IsTable max s' → IsTable max (f s').1)
      → IsTable max s
      → s.ol_con < max
      → i < s.ol_con + 1
      → get_elem? s.cli_fds i ≡ some (pos fd)
      → Ends max (and_then (server_close net fd s) (λ s'. gives (f s')))
  closes-Ends max i fd s f keeps t room lt e =
      let (s', q, t') = server_close-IsTable max i fd s t room lt e in
      (f s', ap (λ (b : Behaviour (Server D)). and_then b (λ x. gives (f x))) q, keeps s' t')

  send_file-Ends :
      (max i fd : ℕ) (name : List ℕ) (s : Server D)
      → length name < 255
      → IsTable max s
      → s.ol_con < max
      → i < s.ol_con + 1
      → get_elem? s.cli_fds i ≡ some (pos fd)
      → Ends max (send_file net fd name s)
  unfolding send_file
  send_file-Ends max i fd name s short t room lt e =
      let sent = (file_send2 net fd name s.sys).0 in
      let s' : Server D = record s { sys = (file_send2 net fd name s.sys).1 } in
      let small : ltb (length name) 255 ≡ true = ground arith in
      elim (Bool-cases sent) [
        | inl y ↦ ((pos 0, s'), rw (small, y) refl, t)
        | inr n ↦
            rw (small, n) (closes-Ends max i fd s' (λ s₁. (pos 0, s₁)) (λ s₁ t₁. t₁) t room lt e)
      ]

  answer_client-Ends :
      (max i fd : ℕ) (answer : Answer) (s : Server D)
      → IsTable max s
      → s.ol_con < max
      → i < s.ol_con + 1
      → get_elem? s.cli_fds i ≡ some (pos fd)
      → Ends max (answer_client net fd answer s)
        ⊎ (HasLongName (filled answer s.buf) × (answer_client net fd answer s ≡ undefined))
  unfolding answer_client handler_failed handle_request send_file
  answer_client-Ends max i fd (got []) s t room lt e =
      inl (closes-Ends max i fd s (λ s'. (pos 0, s')) (λ s' t'. t') t room lt e)
  answer_client-Ends max i fd (got (x ∷ xs)) s t room lt e =
      let buf = (x ∷ xs) ++ drop (length (x ∷ xs)) s.buf in
      let s₁ : Server D = record s { buf = buf; n_handlers = s.n_handlers + 1 } in
      elim (Option-cases (get_filename buf)) [
        | inl no_name ↦ inl (
            rw (no_name, handle_request)
              (closes-Ends max i fd s₁ (λ s'. (negsuc 0, record s' { sys = net.close fd s'.sys }))
                (λ s' t'. t') t room lt e))
        | inr (r, found) ↦ elim (lt_or_ge (length r.0) 255) [
          | inl short ↦ inl (
              rw (found, handle_request)
                (send_file-Ends max i fd r.0 (record s₁ { buf = r.1 }) short t room lt e))
          | inr long ↦
              let large : ltb (length r.0) 255 ≡ false = ground arith in
              inr ((r, found, long), rw (found, handle_request, large, send_file) refl)
        ]
      ]
  answer_client-Ends max i fd interrupted s t room lt e = inl (
      closes-Ends max i fd s (λ s'. (negsuc 0, record s' { sys = net.close fd s'.sys }))
        (λ s' t'. t') t room lt e)
  answer_client-Ends max i fd failed s t room lt e = inl (
      closes-Ends max i fd s (λ s'. (negsuc 0, record s' { sys = net.close fd s'.sys }))
        (λ s' t'. t') t room lt e)

  -- Of a table of `max` slots that is not full, no descriptor in two of them and `ol_con` the number of the
  -- clients: the handler of a client in one of the first `ol_con + 1` slots, whose read the system interrupts
  -- less than `k` times and then answers, ends and leaves such a table, whatever the answer and the request are;
  -- or the request has a name of 255 bytes or more, and what the handler does is undefined.
  pub client_handler-IsTable :
      (max k i fd : ℕ) (s : Server D) (answer : Answer) (d : D)
      → read_again net k fd s.sys ≡ some (answer, d)
      → IsTable max s
      → s.ol_con < max
      → i < s.ol_con + 1
      → get_elem? s.cli_fds i ≡ some (pos fd)
      → ((r : ℤ × Server D) × (client_handler net k fd s ≡ gives r) × IsTable max r.1)
        ⊎ (HasLongName (filled answer s.buf) × (client_handler net k fd s ≡ undefined))
  unfolding client_handler
  client_handler-IsTable max k i fd s answer d q t room lt e =
      rw (q, client_handler) (answer_client-Ends max i fd answer (record s { sys = d }) t room lt e)
