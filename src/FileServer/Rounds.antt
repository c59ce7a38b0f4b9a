-- ===== src/FileServer/Rounds.antt =====
-- 03NetPro_thread/06Socket/04File_Server/server.c: rounds of the loop of `main`, behind a client that leaves.
use demo_class.Common.{
  replicate, zero, ◌++◌, if◌then◌else◌, ap, ◌∙◌, ℕ, suc, ◌+◌, ◌<◌, ◌≡◌, refl, Bool, true, false,
  ◌&&◌, Option, some, List, [], ◌∷◌, arith, length, get_elem?, ltb, ◌==◌,
}
use demo_class.Common.Int.{ℤ, pos, negsuc}
use demo_class.Behaviour.{Behaviour, undefined, gives, and_then}
use demo_class.FileServer.{
  got, Net, Server, Selected, timed_out, ready, read_again, watched, is_fd, close_loop, finds,
  server_close, answer_client, client_handler, visit, visit_loop, visit_clients, round, run,
}

positive-suc : (max : ℕ) → 0 < max → (m : ℕ) × (max + 1 ≡ suc (suc m))
positive-suc zero room = absurd (omega arith)
positive-suc (suc m) room = (m, omega arith)

module _ {D : Type 0} (net : Net D) (max k sock_fd : ℕ) (warning : List ℕ) where
  abbrev go_on : Server D → Behaviour (Bool × Server D)
  go_on s = gives (true, s)

  -- a round without a new connection goes straight to the clients
  quiet-round :
      (fds : ℕ → Bool) (accepted : Option ℕ) (s : Server D)
      → fds sock_fd ≡ false
      → round net max k sock_fd warning (ready fds accepted) s
        ≡ visit_clients net max k sock_fd warning
            (record s { rd_set = λ fd. watched sock_fd s.cli_fds fd && fds fd })
  unfolding round
  quiet-round fds accepted s quiet =
      let no : (watched sock_fd s.cli_fds sock_fd && fds sock_fd) ≡ false = ground arith in
      rw no refl

  gap-undefined :
      (fds : ℕ → Bool) (accepted : Option ℕ) (s : Server D) (n : ℕ) (rest : List ℤ)
      → s.cli_fds ≡ negsuc n ∷ rest
      → 0 < s.ol_con
      → fds sock_fd ≡ false
      → round net max k sock_fd warning (ready fds accepted) s ≡ undefined
  unfolding visit_clients visit_loop visit
  gap-undefined fds accepted s n rest at some_client quiet =
      let s₁ : Server D = record s { rd_set = λ fd. watched sock_fd s.cli_fds fd && fds fd } in
      let lt : ltb 0 s.ol_con ≡ true = ground arith in
      let more : max + 1 ≡ suc max = omega arith in
      let gap : get_elem? s.cli_fds 0 ≡ some (negsuc n) =
        ap (λ (slots : List ℤ). get_elem? slots 0) at in
      let stuck : visit_loop net k (suc max) 0 s₁ ≡ undefined = rw (lt, visit_loop, gap) refl in
      quiet-round fds accepted s quiet
      ∙ ap (λ (n : ℕ). and_then (visit_loop net k n 0 s₁) go_on) more
      ∙ ap (λ (b : Behaviour (Server D)). and_then b go_on) stuck

  waits-undefined :
      (fds : ℕ → Bool) (accepted : Option ℕ) (waits : ℕ) (es : List Selected) (s : Server D)
      → round net max k sock_fd warning (ready fds accepted) s ≡ undefined
      → run net max k sock_fd warning (replicate waits timed_out ++ ready fds accepted ∷ es) s
        ≡ undefined
  unfolding run round
  waits-undefined fds accepted zero es s stuck =
      ap
        (λ (b : Behaviour (Bool × Server D)). and_then b (λ r.
          elim r.0 as (λ _. Behaviour (Server D)) [
            | false ↦ gives r.1
            | true ↦ run net max k sock_fd warning es r.1
          ]))
        stuck
  waits-undefined fds accepted (suc waits) es s stuck =
      waits-undefined fds accepted waits es s stuck

  -- `s` with clients `a` and `b` in the first two of three slots or more, and no other
  abbrev pub two_clients : ℕ → ℕ → ℤ → List ℤ → Server D → Server D
  two_clients a b c rest s = record s { cli_fds = pos a ∷ pos b ∷ c ∷ rest; ol_con = 2 }

  leaves :
      (a b : ℕ) (c : ℤ) (rest : List ℤ) (fds : ℕ → Bool) (accepted : Option ℕ) (s : Server D)
      (d : D)
      → 0 < max
      → 0 < a
      → fds sock_fd ≡ false
      → fds a ≡ true
      → read_again net k a s.sys ≡ some (got [], d)
      → (s' : Server D) × (slots : List ℤ) × (round net max k sock_fd warning
            (ready fds accepted)
            (two_clients a b c rest s)
          ≡ gives (true, s'))
        × (s'.cli_fds ≡ negsuc 0 ∷ slots)
        × (s'.ol_con ≡ 1)
  unfolding visit_clients visit_loop visit client_handler answer_client server_close close_loop
      is_fd watched
  leaves a b c rest fds accepted s d room positive quiet asks leaving =
      let two = two_clients a b c rest s in
      let s₁ : Server D = record two { rd_set = λ fd. watched sock_fd two.cli_fds fd && fds fd } in
      let s₂ : Server D = record s₁ {
        cli_fds = close_loop 3 a two.cli_fds;
        rd_set = λ p. if p == a && finds 3 a two.cli_fds then false else s₁.rd_set p;
        ol_con = 1;
        sys = net.close a d;
      } in
      let inside : ltb 2 (length two.cli_fds) ≡ true = ground arith in
      let same : (a == a) ≡ true = ground arith in
      let set : s₁.rd_set a ≡ true = ground arith in
      let handled : client_handler net k a s₁ ≡ gives (pos 0, s₂) =
        rw (leaving, client_handler, inside) refl in
      let visited : visit net k (pos a) s₁ ≡ gives s₂ = rw (set, handled) refl in
      let (m, more) = positive-suc max room in
      (
        s₂,
        _,
        quiet-round fds accepted two quiet
            ∙ ap (λ (n : ℕ). and_then (visit_loop net k n 0 s₁) go_on) more
            ∙ ap
                (λ (b : Behaviour (Server D)).
                  and_then (and_then b (λ s'. visit_loop net k (suc m) 1 s')) go_on)
                visited,
        ap (λ (t : Bool). (if t then negsuc 0 else pos a) ∷ close_loop 2 a (pos b ∷ c ∷ rest)) same,
        refl,
      )

  -- Two clients stand in the first two of at least three slots, and no other. The first of them leaves in a
  -- round; then the next round in which `select` finds something, and no new connection, is undefined: `FD_ISSET`
  -- is asked for the -1 in the first slot. Rounds in which `select` times out may lie between.
  pub run-undefined :
      (a b : ℕ) (c : ℤ) (rest : List ℤ) (fds fds' : ℕ → Bool) (accepted accepted' : Option ℕ)
      (waits : ℕ) (es : List Selected) (s : Server D) (d : D)
      → 0 < max
      → 0 < a
      → fds sock_fd ≡ false
      → fds a ≡ true
      → read_again net k a s.sys ≡ some (got [], d)
      → fds' sock_fd ≡ false
      → run net max k sock_fd warning
          (ready fds accepted ∷ (replicate waits timed_out ++ ready fds' accepted' ∷ es))
          (two_clients a b c rest s)
        ≡ undefined
  unfolding run
  run-undefined a b c rest fds fds' accepted accepted' waits es s d room positive quiet asks leaving
        quiet' =
      let (s', slots, first, gap, one) =
        leaves a b c rest fds accepted s d room positive quiet asks leaving in
      let next = gap-undefined fds' accepted' s' 0 slots gap (omega (arith, one)) quiet' in
      ap
        (λ (b : Behaviour (Bool × Server D)). and_then b (λ r.
          elim r.0 as (λ _. Behaviour (Server D)) [
            | false ↦ gives r.1
            | true ↦
                run net max k sock_fd warning
                  (replicate waits timed_out ++ ready fds' accepted' ∷ es) r.1
          ]))
        first
      ∙ waits-undefined fds' accepted' waits es s' next
