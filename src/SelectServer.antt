-- ===== src/SelectServer.antt =====
-- 03NetPro_thread/06Socket/03Tcp_select_enhanced/server.c: a server that sends back in capitals what its clients
-- send, with the table of clients and the rounds of FileServer. What the system answers in a round comes with
-- the round: what `select` finds, what `accept` returns, and what the `read` of each client returns
-- behind its interrupts. `max` stands for MAX_CLI_NUM.
pub mod Errors
mod Tests
use demo_class.Common.{
  ℕ, zero, suc, ◌+◌, ◌-◌, Bool, true, false, ◌&&◌, ◌||◌, Option, none, some, List, [], ◌∷◌, ◌++◌,
  length, map, drop, get_elem?, ltb, ◌==◌, if◌then◌else◌,
}
use demo_class.Common.Int.{ℤ, pos, negsuc}
use demo_class.FileServer.{Answer, got, interrupted, failed, close_loop, place_loop, watched}
use demo_class.Behaviour.{Behaviour, out_of_rounds, undefined, gives, and_then}
use demo_class.EchoServer.{capitals}

-- the globals, the descriptors that are open, and what has been given to `write` for which
pub record Server : Type 0 where
  pub buf : List ℕ
  pub ol_con : ℕ
  pub cli_fds : List ℤ
  pub is_open : ℕ → Bool
  pub sent : List (ℕ × List ℕ)

-- a round: `select` fails, times out, or finds descriptors; then what `accept` and the reads return
pub data Selected : Type 0 where
  select_failed : Selected
  timed_out : Selected
  ready : (ℕ → Bool) → Option ℕ → (ℕ → Answer) → Selected

abbrev pub shut : ℕ → (ℕ → Bool) → ℕ → Bool
shut fd is_open p = if p == fd then false else is_open p

-- `for (n = 0; n <= ol_con; ++n)`, which goes behind a full table, and the close
unfoldable pub client_leaves : ℕ → Server → Behaviour (ℤ × Server)
unfolding close_loop
client_leaves fd s =
    if ltb s.ol_con (length s.cli_fds)
    then gives (
      pos 0,
      record s {
        cli_fds = close_loop (s.ol_con + 1) fd s.cli_fds;
        ol_con = s.ol_con - 1;
        is_open = shut fd s.is_open;
      },
    )
    else undefined

-- what is sent back, in capitals
unfoldable pub answer_text : ℕ → List ℕ → Server → Behaviour (ℤ × Server)
unfolding capitals
answer_text fd bytes s = and_then (capitals bytes) (λ text. gives (
  pos 0,
  record s { buf = text ++ 0 ∷ drop (length bytes + 1) s.buf; sent = s.sent ++ (fd, text) ∷ [] },
))

-- behind the `while` over `read`, which does not end where the interrupts do not; an error closes the descriptor
-- and leaves it in the table
unfoldable pub client_handler : ℕ → Answer → Server → Behaviour (ℤ × Server)
unfolding client_leaves answer_text
client_handler fd (got []) s = client_leaves fd s
client_handler fd (got (x ∷ xs)) s = answer_text fd (x ∷ xs) s
client_handler fd interrupted s = out_of_rounds
client_handler fd failed s = gives (negsuc 0, record s { is_open = shut fd s.is_open })

-- a new connection; the warning, with its NUL, goes through the buffer
unfoldable pub accept_client : ℕ → List ℕ → ℕ → Server → Server
unfolding place_loop
accept_client max warning fd s =
    if s.ol_con == max
    then record s {
      buf = warning ++ drop (length warning) s.buf;
      sent = s.sent ++ (fd, warning) ∷ [];
      is_open = shut fd s.is_open;
    }
    else record s {
      cli_fds = place_loop fd s.cli_fds;
      ol_con = s.ol_con + 1;
      is_open = λ p. if p == fd then true else s.is_open p;
    }

-- `FD_ISSET` of -1 is undefined; what the handler returns is ignored
unfoldable pub visit : (ℕ → Bool) → (ℕ → Answer) → ℤ → Server → Behaviour Server
unfolding client_handler
visit fds reads (negsuc n) s = undefined
visit fds reads (pos fd) s =
    if fds fd then and_then (client_handler fd (reads fd) s) (λ r. gives r.1) else gives s

-- `for (i = 0; i < ol_con; ++i)`
unfoldable pub visit_loop : ℕ → ℕ → (ℕ → Bool) → (ℕ → Answer) → Server → Behaviour Server
unfolding visit
visit_loop zero i fds reads s = out_of_rounds
visit_loop (suc n) i fds reads s = elim (ltb i s.ol_con) [
  | false ↦ gives s
  | true ↦ elim (get_elem? s.cli_fds i) [
    | none ↦ undefined
    | some fd ↦ and_then (visit fds reads fd s) (λ s'. visit_loop n (suc i) fds reads s')
  ]
]

module _ (max sock_fd : ℕ) (warning : List ℕ) where
  unfoldable pub visit_clients : (ℕ → Bool) → (ℕ → Answer) → Server → Behaviour (Bool × Server)
  unfolding visit_loop
  visit_clients fds reads s = and_then (visit_loop (max + 1) 0 fds reads s) (λ s'. gives (true, s'))

  -- a round of `while (1)`, and whether it goes on
  unfoldable pub round : Selected → Server → Behaviour (Bool × Server)
  unfolding visit_clients watched accept_client
  round select_failed s = gives (false, s)
  round timed_out s = gives (true, s)
  round (ready fds accepted reads) s =
      let rd_set = λ (fd : ℕ). watched sock_fd s.cli_fds fd && fds fd in
      if rd_set sock_fd
      then (elim accepted [
        | none ↦ gives (false, s)
        | some fd ↦ visit_clients rd_set reads (accept_client max warning fd s)
      ])
      else visit_clients rd_set reads s
