-- ===== src/FileServer.antt =====
-- 03NetPro_thread/06Socket/04File_Server/server.c: a server that keeps the descriptors of its clients in a
-- table and sends them files. The calls of the system are a parameter; what they change is a `D`. An
-- `int` descriptor is an integer, -1 where a slot is free. `max` stands for MAX_CLI_NUM. The rounds
-- given as fuel are for the interrupts of a `read`, and for the slots.
pub mod Requests
pub mod Table
pub mod Rounds
mod Tests
use demo_class.Common.{
  ℕ, zero, suc, ◌+◌, ◌-◌, Bool, true, false, ◌&&◌, ◌||◌, Option, none, some, ◌>>=◌, List, [], ◌∷◌,
  ◌++◌, length, take, drop, set, get_elem?, ltb, ◌==◌, if◌then◌else◌,
}
use demo_class.Common.Int.{ℤ, pos, negsuc}
use demo_class.Behaviour.{Behaviour, out_of_rounds, undefined, gives, and_then}
use demo_class.CString.{c_string, strstr, strchr}

-- what `read` returns: the bytes, none of them at the end; or -1, with `errno` EINTR or EAGAIN, or another
pub data Answer : Type 0 where
  got : List ℕ → Answer
  interrupted : Answer
  failed : Answer

-- `read`, `close`, `open` with the bytes of the file, `mmap` and `write` of them: whether the last two succeed
pub record Net (D : Type 0) : Type 0 where
  pub read : ℕ → D → Answer × D
  pub close : ℕ → D → D
  pub open_file : List ℕ → D → Option (List ℕ) × D
  pub mmap : List ℕ → D → Bool × D
  pub write : ℕ → List ℕ → D → Bool × D

-- the globals of the program
pub record Server (D : Type 0) : Type 0 where
  pub buf : List ℕ
  pub ol_con : ℕ
  pub cli_fds : List ℤ
  pub rd_set : ℕ → Bool
  pub n_handlers : ℕ
  pub sys : D

abbrev pub get_request : List ℕ
get_request = b'G' ∷ b'E' ∷ b'T' ∷ b' ' ∷ b'/' ∷ []

-- the name, and the buffer with a NUL behind it
unfoldable pub get_filename : List ℕ → Option (List ℕ × List ℕ)
get_filename str = strstr get_request (c_string str) >>= λ r.
    strchr r.1 b' ' >>= λ name. some (name, set str (r.0 + 5 + length name) 0)

unfoldable pub is_fd : ℤ → ℕ → Bool
is_fd (pos n) fd = n == fd
is_fd (negsuc n) fd = false

unfoldable pub is_free : ℤ → Bool
is_free (pos n) = false
is_free (negsuc n) = true

-- the loop of `server_close` over the first `k` slots, and whether it has found the descriptor
unfoldable pub close_loop : ℕ → ℕ → List ℤ → List ℤ
unfolding is_fd
close_loop zero fd slots = slots
close_loop (suc k) fd [] = []
close_loop (suc k) fd (x ∷ slots) = (if is_fd x fd then negsuc 0 else x) ∷ close_loop k fd slots

unfoldable pub finds : ℕ → ℕ → List ℤ → Bool
unfolding is_fd
finds zero fd slots = false
finds (suc k) fd [] = false
finds (suc k) fd (x ∷ slots) = is_fd x fd || finds k fd slots

-- the first free slot gets the descriptor
unfoldable pub place_loop : ℕ → List ℤ → List ℤ
unfolding is_free
place_loop fd [] = []
place_loop fd (x ∷ slots) =
    let rest = place_loop fd slots in if is_free x then pos fd ∷ slots else x ∷ rest

module _ {D : Type 0} (net : Net D) where
  -- `FD_CLR` is in the loop, which goes up to `ol_con` itself: behind a full table that is not a slot, and
  -- undefined. `--ol_con` is behind the loop; the count is not 0 where a descriptor is in the table.
  unfoldable pub server_close : ℕ → Server D → Behaviour (Server D)
  unfolding close_loop finds
  server_close fd s =
      if ltb s.ol_con (length s.cli_fds)
      then gives (record s {
        cli_fds = close_loop (s.ol_con + 1) fd s.cli_fds;
        rd_set = λ p. if p == fd && finds (s.ol_con + 1) fd s.cli_fds then false else s.rd_set p;
        ol_con = s.ol_con - 1;
        sys = net.close fd s.sys;
      })
      else undefined

  -- `file_send2`: false is -1; the descriptor of the file stays open
  unfoldable pub file_send2 : ℕ → List ℕ → D → Bool × D
  file_send2 fd file d =
      let (opened, d₁) = net.open_file file d in
      elim opened [
        | none ↦ (false, d₁)
        | some bytes ↦
            let (mapped, d₂) = net.mmap bytes d₁ in
            elim mapped [ false ↦ (false, d₂) | true ↦ net.write fd bytes d₂ ]
      ]

  -- the `while` over `read`
  unfoldable pub read_again : ℕ → ℕ → D → Option (Answer × D)
  read_again zero fd d = none
  read_again (suc k) fd d =
      let (answer, d') = net.read fd d in
      elim answer [
        | got bytes ↦ some (got bytes, d')
        | interrupted ↦ read_again k fd d'
        | failed ↦ some (failed, d')
      ]

  -- behind `err:`
  unfoldable pub handler_failed : ℕ → Server D → Behaviour (ℤ × Server D)
  unfolding server_close
  handler_failed fd s =
      and_then (server_close fd s) (λ s'. gives (negsuc 0, record s' { sys = net.close fd s'.sys }))

  -- the transfer of the file, which has a name of less than 255 bytes: `file` has no NUL behind a longer one
  unfoldable pub send_file : ℕ → List ℕ → Server D → Behaviour (ℤ × Server D)
  unfolding file_send2 server_close
  send_file fd name s =
      let (sent, d) = file_send2 fd name s.sys in
      let s' : Server D = record s { sys = d } in
      if ltb (length name) 255
      then (if sent
          then gives (pos 0, s')
          else and_then (server_close fd s') (λ s₁. gives (pos 0, s₁)))
      else undefined

  -- `n` bytes of a request have been read over the first of the buffer
  unfoldable pub handle_request : ℕ → List ℕ → Server D → Behaviour (ℤ × Server D)
  unfolding get_filename handler_failed send_file
  handle_request fd bytes s =
      let buf = bytes ++ drop (length bytes) s.buf in
      let s₁ : Server D = record s { buf = buf; n_handlers = s.n_handlers + 1 } in
      elim (get_filename buf) [
        | none ↦ handler_failed fd s₁
        | some r ↦ send_file fd r.0 (record s₁ { buf = r.1 })
      ]

  -- behind the `while` over `read`
  unfoldable pub answer_client : ℕ → Answer → Server D → Behaviour (ℤ × Server D)
  unfolding server_close handle_request handler_failed
  answer_client fd (got []) s = and_then (server_close fd s) (λ s'. gives (pos 0, s'))
  answer_client fd (got (x ∷ xs)) s = handle_request fd (x ∷ xs) s
  answer_client fd interrupted s = handler_failed fd s
  answer_client fd failed s = handler_failed fd s

  unfoldable pub client_handler : ℕ → ℕ → Server D → Behaviour (ℤ × Server D)
  unfolding read_again answer_client
  client_handler k fd s = elim (read_again k fd s.sys) [
    | none ↦ out_of_rounds
    | some r ↦ answer_client fd r.0 (record s { sys = r.1 })
  ]

  -- a new connection; the warning, with its NUL, goes through the buffer
  unfoldable pub accept_client : ℕ → List ℕ → ℕ → Server D → Server D
  unfolding place_loop
  accept_client max warning fd s =
      if s.ol_con == max
      then record s {
        buf = warning ++ drop (length warning) s.buf;
        sys = net.close fd (net.write fd warning s.sys).1;
      }
      else record s { cli_fds = place_loop fd s.cli_fds; ol_con = s.ol_con + 1 }

  -- the handler of the client in a slot, if it is ready; `FD_ISSET` of -1 is undefined
  unfoldable pub visit : ℕ → ℤ → Server D → Behaviour (Server D)
  unfolding client_handler
  visit k (negsuc n) s = undefined
  visit k (pos fd) s =
      if s.rd_set fd then and_then (client_handler k fd s) (λ r. gives r.1) else gives s

  -- `for (i = 0; i < ol_con; ++i)`
  unfoldable pub visit_loop : ℕ → ℕ → ℕ → Server D → Behaviour (Server D)
  unfolding visit
  visit_loop k zero i s = out_of_rounds
  visit_loop k (suc n) i s = elim (ltb i s.ol_con) [
    | false ↦ gives s
    | true ↦ elim (get_elem? s.cli_fds i) [
      | none ↦ undefined
      | some fd ↦ and_then (visit k fd s) (λ s'. visit_loop k n (suc i) s')
    ]
  ]

-- what `select` returns: an error, nothing within the time, or the descriptors that are ready; and what
-- `accept` returns if it is called
pub data Selected : Type 0 where
  select_failed : Selected
  timed_out : Selected
  ready : (ℕ → Bool) → Option ℕ → Selected

-- the descriptors given to `select`: the listening socket, and the positive ones of the table
unfoldable pub watched : ℕ → List ℤ → ℕ → Bool
unfolding is_fd
watched sock_fd [] fd = fd == sock_fd
watched sock_fd (x ∷ slots) fd = (is_fd x fd && ltb 0 fd) || watched sock_fd slots fd

module _ {D : Type 0} (net : Net D) (max k sock_fd : ℕ) (warning : List ℕ) where
  -- behind `accept`
  unfoldable pub visit_clients : Server D → Behaviour (Bool × Server D)
  unfolding visit_loop
  visit_clients s = and_then (visit_loop net k (max + 1) 0 s) (λ s'. gives (true, s'))

  -- a round of `while (1)`, and whether it goes on
  unfoldable pub round : Selected → Server D → Behaviour (Bool × Server D)
  unfolding visit_clients watched accept_client
  round select_failed s = gives (false, s)
  round timed_out s = gives (true, s)
  round (ready fds accepted) s =
      let rd_set = λ (fd : ℕ). watched sock_fd s.cli_fds fd && fds fd in
      let s₁ : Server D = record s { rd_set = rd_set } in
      if rd_set sock_fd
      then (elim accepted [
        | none ↦ gives (false, s₁)
        | some fd ↦ visit_clients (accept_client net max warning fd s₁)
      ])
      else visit_clients s₁

  unfoldable pub run : List Selected → Server D → Behaviour (Server D)
  unfolding round
  run [] s = gives s
  run (e ∷ es) s = and_then (round e s) (λ r. elim r.0 [ false ↦ gives r.1 | true ↦ run es r.1 ])
