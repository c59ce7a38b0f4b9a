-- ===== src/SelectServer/Errors.antt =====
-- 03NetPro_thread/06Socket/03Tcp_select_enhanced/server.c: what follows an error on a connection.
use demo_class.Common.{
  ap, ◌∙◌, ◌++◌, drop, ◌-◌, ℕ, zero, suc, ◌+◌, ◌<◌, ◌≤◌, ◌≡◌, ◌≢◌, ◌⊎◌, inl, inr, Bool, Bool-cases,
  Option-cases, Option, arith, true, false, some, List, [], ◌∷◌, get_elem?, ltb, length, ◌&&◌, ◌==◌,
  refl,
}
use demo_class.Common.Int.{ℤ, pos, negsuc}
use demo_class.Behaviour.{Behaviour, undefined, gives}
use demo_class.FileServer.{Answer, got, interrupted, failed, is_fd, watched, close_loop}
use demo_class.FileServer.Table.{occurs, occurs-close_loop}
use demo_class.EchoServer.{capital, toupper, capitals}
use demo_class.SelectServer.{
  shut, Server, Selected, select_failed, ready, client_leaves, answer_text, client_handler, visit,
  visit_loop, visit_clients, round,
}

-- `select` fails, with EBADF, when it is given a descriptor that is not open
abbrev pub FailsOnClosed : ℕ → Selected → Server → Type 0
FailsOnClosed sock_fd e s =
    (fd : ℕ) → watched sock_fd s.cli_fds fd ≡ true → s.is_open fd ≡ false → e ≡ select_failed

-- the descriptor is in the first slot and in no other, but closed; `ol_con` is at most `m`
abbrev IsLeft : ℕ → ℕ → Server → Type 0
IsLeft fd m s =
    (slots : List ℤ) × (s.cli_fds ≡ pos fd ∷ slots)
    × (occurs fd slots ≡ 0)
    × (s.is_open fd ≡ false)
    × (s.ol_con ≤ m)

-- the code does something undefined, or goes on with the descriptor as it is
abbrev Leaves : ℕ → ℕ → Behaviour Server → Type 0
Leaves fd m b = (b ≡ undefined) ⊎ ((s' : Server) × (b ≡ gives s') × IsLeft fd m s')

text_cases :
    (cs : List ℕ) → (capitals cs ≡ undefined) ⊎ ((text : List ℕ) × (capitals cs ≡ gives text))
unfolding capitals toupper
text_cases [] = inr ([], refl)
text_cases (c ∷ cs) = elim (Bool-cases (ltb c 128)) [
  | inr wide ↦ inl (rw wide refl)
  | inl small ↦ elim (text_cases cs) [
    | inl e ↦ inl (rw (small, e) refl)
    | inr (text, e) ↦ inr (capital c ∷ text, rw (small, e) refl)
  ]
]

-- no read is interrupted for ever
abbrev pub Answers : (ℕ → Answer) → Type 0
Answers reads = (fd : ℕ) → reads fd ≢ interrupted

close_loop-first :
    (k n fd : ℕ) (slots : List ℤ)
    → n ≢ fd
    → occurs fd slots ≡ 0
    → (slots' : List ℤ) × (close_loop k n (pos fd ∷ slots) ≡ pos fd ∷ slots')
      × (occurs fd slots' ≡ 0)
unfolding close_loop is_fd
close_loop-first zero n fd slots other none_there = (slots, refl, none_there)
close_loop-first (suc k) n fd slots other none_there =
    let not_it : (fd == n) ≡ false = ground arith in
    let few = occurs-close_loop k n fd slots in
    (close_loop k n slots, rw not_it refl, omega (arith, none_there))

client_handler-IsLeft :
    (fd m n : ℕ) (answer : Answer) (s : Server)
    → answer ≢ interrupted
    → n ≢ fd
    → IsLeft fd m s
    → (client_handler n answer s ≡ undefined)
      ⊎ ((r : ℤ × Server) × (client_handler n answer s ≡ gives r) × IsLeft fd m r.1)
unfolding client_handler client_leaves answer_text
client_handler-IsLeft fd m n (got []) s answers other (slots, at, once, closed, few) =
    let (slots', left, once') = close_loop-first (s.ol_con + 1) n fd slots other once in
    let other' : (fd == n) ≡ false = ground arith in
    elim (Bool-cases (ltb s.ol_con (length s.cli_fds))) [
      | inr full ↦ inl (rw full refl)
      | inl inside ↦ inr (
        (
          pos 0,
          record s {
            cli_fds = close_loop (s.ol_con + 1) n s.cli_fds;
            ol_con = s.ol_con - 1;
            is_open = shut n s.is_open;
          },
        ),
        rw inside refl,
        (
          slots',
          ap (close_loop (s.ol_con + 1) n) at ∙ left,
          once',
          rw other' closed,
          omega (arith, few),
        ),
      )
    ]
client_handler-IsLeft fd m n (got (x ∷ xs)) s answers other left = elim (text_cases (x ∷ xs)) [
  | inl wide ↦ inl (rw wide refl)
  | inr (text, e) ↦ inr (
    (
      pos 0,
      record s {
        buf = text ++ 0 ∷ drop (length (x ∷ xs) + 1) s.buf;
        sent = s.sent ++ (n, text) ∷ [];
      },
    ),
    rw e refl,
    left,
  )
]
client_handler-IsLeft fd m n interrupted s answers other left = absurd (answers refl)
client_handler-IsLeft fd m n failed s answers other (slots, at, once, closed, few) =
    let other' : (fd == n) ≡ false = ground arith in
    inr (
      (negsuc 0, record s { is_open = shut n s.is_open }),
      refl,
      (slots, at, once, rw other' closed, few),
    )

visit-IsLeft :
    (fd m n : ℕ) (fds : ℕ → Bool) (reads : ℕ → Answer) (s : Server)
    → reads n ≢ interrupted
    → n ≢ fd
    → IsLeft fd m s
    → Leaves fd m (visit fds reads (pos n) s)
unfolding visit
visit-IsLeft fd m n fds reads s answers other left = elim (Bool-cases (fds n)) [
  | inr idle ↦ inr (s, rw idle refl, left)
  | inl asks ↦ elim (client_handler-IsLeft fd m n (reads n) s answers other left) [
    | inl e ↦ inl (rw (asks, e) refl)
    | inr (r, e, left') ↦ inr (r.1, rw (asks, e) refl, left')
  ]
]

occurs-other :
    (i n fd : ℕ) (slots : List ℤ) → occurs fd slots ≡ 0 → get_elem? slots i ≡ some (pos n) → n ≢ fd
unfolding occurs is_fd
occurs-other i n fd [] once at = ground arith
occurs-other zero n fd (pos x ∷ slots) once at = ground arith
occurs-other zero n fd (negsuc x ∷ slots) once at = ground arith
occurs-other (suc i) n fd (x ∷ slots) once at = occurs-other i n fd slots (ground arith) at

-- the slots behind the first
visit_loop-IsLeft :
    (fd m k i : ℕ) (fds : ℕ → Bool) (reads : ℕ → Answer) (s : Server)
    → Answers reads
    → suc i ≤ m
    → m < suc i + k
    → IsLeft fd m s
    → Leaves fd m (visit_loop k (suc i) fds reads s)
unfolding visit_loop visit
visit_loop-IsLeft fd m zero i fds reads s answers here fuel left = absurd (omega arith)
visit_loop-IsLeft fd m (suc k) i fds reads s answers here fuel (slots, at, once, closed, few) =
    elim (Bool-cases (ltb (suc i) s.ol_con)) [
      | inr stop ↦ inr (s, rw (stop, visit_loop) refl, (slots, at, once, closed, few))
      | inl lt ↦
          let there = ap (λ (xs : List ℤ). get_elem? xs (suc i)) at in
          elim (Option-cases (get_elem? slots i)) [
            | inl q ↦ inl (rw (lt, visit_loop, there ∙ q) refl)
            | inr (negsuc n, q) ↦ inl (rw (lt, visit_loop, there ∙ q) refl)
            | inr (pos n, q) ↦
                let left : IsLeft fd m s = (slots, at, once, closed, few) in
                elim (visit-IsLeft fd m n fds reads s (answers n) (occurs-other i n fd slots once q)
                  left) [
                    | inl e ↦ inl (rw (lt, visit_loop, there ∙ q, e) refl)
                    | inr (s', e, left') ↦
                        rw (lt, visit_loop, there ∙ q, e)
                          (visit_loop-IsLeft fd m k (suc i) fds reads s' answers (ground arith)
                            (omega arith) left')
                  ]
          ]
    ]

-- a positive descriptor in the first slot is given to `select`
first-watched :
    (sock_fd fd : ℕ) (slots table : List ℤ)
    → table ≡ pos fd ∷ slots
    → 0 < fd
    → watched sock_fd table fd ≡ true
unfolding watched is_fd
first-watched sock_fd fd slots table at positive =
    let here : (is_fd (pos fd) fd && ltb 0 fd) ≡ true = ground arith in
    ap (λ (xs : List ℤ). watched sock_fd xs fd) at ∙ rw here refl

module _ (max sock_fd : ℕ) (warning : List ℕ) where
  -- the whole loop, where the read of the client in the first slot fails
  visit_clients-IsLeft :
      (fd : ℕ) (slots : List ℤ) (fds : ℕ → Bool) (reads : ℕ → Answer) (s : Server)
      → s.cli_fds ≡ pos fd ∷ slots
      → occurs fd slots ≡ 0
      → 0 < s.ol_con
      → s.ol_con ≤ max
      → fds fd ≡ true
      → reads fd ≡ failed
      → Answers reads
      → (visit_clients max sock_fd warning fds reads s ≡ undefined)
        ⊎ ((s' : Server) × (visit_clients max sock_fd warning fds reads s ≡ gives (true, s'))
            × IsLeft fd max s')
  unfolding visit_clients visit_loop visit client_handler
  visit_clients-IsLeft fd slots fds reads s at once some_client few asks fails answers =
      let s₁ : Server = record s { is_open = shut fd s.is_open } in
      let same : (fd == fd) ≡ true = ground arith in
      let left : IsLeft fd max s₁ = (slots, at, once, rw same refl, few) in
      let more : max + 1 ≡ suc max = omega arith in
      let lt : ltb 0 s.ol_con ≡ true = ground arith in
      let there : get_elem? s.cli_fds 0 ≡ some (pos fd) = ap (λ (xs : List ℤ). get_elem? xs 0) at in
      let visited : visit fds reads (pos fd) s ≡ gives s₁ = rw (asks, fails) refl in
      let first : visit_loop (max + 1) 0 fds reads s ≡ visit_loop max 1 fds reads s₁ =
        ap (λ (n : ℕ). visit_loop n 0 fds reads s) more
        ∙ rw (lt, visit_loop, there, visited) refl in
      elim (visit_loop-IsLeft fd max max 0 fds reads s₁ answers (omega (arith, some_client, few))
        (omega arith) left) [
          | inl e ↦ inl (rw (first ∙ e) refl)
          | inr (s', e, left') ↦ inr (s', rw (first ∙ e) refl, left')
        ]

  -- Where `select` fails on a descriptor that is closed: the read of the client in the first slot fails in a
  -- round without a new connection, in which no read is interrupted for ever. Then, if nothing in the rest of
  -- that round is undefined, the descriptor is still in the table behind it, and the next round ends the server,
  -- for all clients.
  pub round-ends :
      (fd : ℕ) (slots : List ℤ) (fds : ℕ → Bool) (accepted : Option ℕ) (reads : ℕ → Answer)
      (e : Selected) (s : Server)
      → s.cli_fds ≡ pos fd ∷ slots
      → occurs fd slots ≡ 0
      → 0 < fd
      → 0 < s.ol_con
      → s.ol_con ≤ max
      → fds sock_fd ≡ false
      → fds fd ≡ true
      → reads fd ≡ failed
      → Answers reads
      → ((s' : Server)
          → round max sock_fd warning (ready fds accepted reads) s ≡ gives (true, s')
          → FailsOnClosed sock_fd e s')
      → (round max sock_fd warning (ready fds accepted reads) s ≡ undefined)
        ⊎ ((s' : Server) × (round max sock_fd warning (ready fds accepted reads) s
              ≡ gives (true, s'))
            × (get_elem? s'.cli_fds 0 ≡ some (pos fd))
            × (round max sock_fd warning e s' ≡ gives (false, s')))
  unfolding round watched is_fd
  round-ends fd slots fds accepted reads e s at once positive some_client few quiet asks fails
        answers next =
      let no : (watched sock_fd s.cli_fds sock_fd && fds sock_fd) ≡ false = ground arith in
      let given = first-watched sock_fd fd slots s.cli_fds at positive in
      let set : (watched sock_fd s.cli_fds fd && fds fd) ≡ true = ground arith in
      elim (visit_clients-IsLeft fd slots (λ p. watched sock_fd s.cli_fds p && fds p) reads s at
        once some_client few set fails answers) [
          | inl q ↦ inl (rw (no, q) refl)
          | inr (s', q, (slots', at', once', closed, few')) ↦
              let now : round max sock_fd warning (ready fds accepted reads) s ≡ gives (true, s') =
                rw (no, q) refl in
              inr (
                s',
                now,
                ap (λ (xs : List ℤ). get_elem? xs 0) at',
                ap (λ (x : Selected). round max sock_fd warning x s')
                    (next s' now fd (first-watched sock_fd fd slots' s'.cli_fds at' positive)
                      closed),
              )
        ]
