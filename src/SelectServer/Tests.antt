-- ===== src/SelectServer/Tests.antt =====
-- The clients 4 and 5 behind the listening socket 3: the read of client 4 fails, and the loop ends.
use demo_class.Common.{
  ℕ, Bool, Bool-cases, inl, inr, ◌⊎◌, get_elem?, some, ◌≡◌, refl, arith, true, false, ◌==◌, none,
  [], ◌∷◌, if◌then◌else◌,
}
use demo_class.Common.Int.{pos, negsuc}
use demo_class.FileServer.{Answer, got, failed, is_fd}
use demo_class.EchoServer.{toupper, capitals}
use demo_class.SelectServer.{Server, select_failed, ready, client_handler, visit, visit_loop, round}
use demo_class.SelectServer.Errors.{Answers, round-ends}
use demo_class.Behaviour.{undefined, gives, and_then}
use demo_class.FileServer.Table.{occurs}

abbrev server : Server
server = record {
  buf = [];
  ol_con = 2;
  cli_fds = pos 4 ∷ pos 5 ∷ negsuc 0 ∷ [];
  is_open = λ fd. true;
  sent = [];
}

abbrev events : ℕ → Answer
events fd = if fd == 4 then failed else got (b'a' ∷ [])

abbrev others : ℕ → Bool
others fd = if fd == 3 then false else true

events-Answers : Answers events
events-Answers fd e = elim (Bool-cases (fd == 4)) [
  | inl y ↦ let e' = rw y at e in absurd (cc)
  | inr n ↦ let e' = rw n at e in absurd (cc)
]

round-ends_example :
    (round 3 3 [] (ready others none events) server ≡ undefined)
    ⊎ ((s' : Server) × (round 3 3 [] (ready others none events) server ≡ gives (true, s'))
        × (get_elem? s'.cli_fds 0 ≡ some (pos 4))
        × (round 3 3 [] select_failed s' ≡ gives (false, s')))
unfolding occurs is_fd
round-ends_example =
    round-ends 3 3 [] 4 (pos 5 ∷ negsuc 0 ∷ []) others none events select_failed server refl refl
      (omega arith) (omega arith) (omega arith) refl refl refl events-Answers
      (λ s' now fd given closed. refl)

-- both clients are ready: one fails, and the other still gets its answer in that round
one_fails :
    and_then (round 3 3 [] (ready others none events) server) (λ r. gives r.1.sent)
    ≡ gives ((5, b'A' ∷ []) ∷ [])
unfolding round visit_loop visit client_handler capitals toupper
one_fails = refl
