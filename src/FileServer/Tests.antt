-- ===== src/FileServer/Tests.antt =====
-- A server with two slots, whose clients 4 and 5 ask for the file "a" as long as they do not leave.
use demo_class.Common.{
  ◌⊎◌, ℕ, ◌≡◌, arith, refl, true, false, none, some, List, [], ◌∷◌, ◌++◌, ◌==◌, if◌then◌else◌,
}
use demo_class.Common.Int.{ℤ, pos, negsuc}
use demo_class.CString.{c_string, behind, strstr, strchr}
use demo_class.FileServer.{
  client_handler, got, Net, Server, Selected, timed_out, ready, is_fd, get_request, get_filename,
  read_again, handle_request, file_send2, run,
}
use demo_class.Behaviour.{Behaviour, undefined, gives, and_then}
use demo_class.FileServer.Table.{HasLongName, client_handler-IsTable, occurs, taken, IsTable}
use demo_class.FileServer.Rounds.{run-undefined}

abbrev request : List ℕ
request = get_request ++ (b'a' ∷ b' ' ∷ b'H' ∷ [])

-- the descriptors that bytes have been written to, the last first; client 4 leaves when it is read
abbrev net : Net (List ℕ)
net = record {
  read = λ fd d. (got (if fd == 4 then [] else request), d);
  close = λ fd d. d;
  open_file = λ file d. (some (1 ∷ 2 ∷ []), d);
  mmap = λ bytes d. (true, d);
  write = λ fd bytes d. (true, fd ∷ d);
}

abbrev server : List ℤ → ℕ → Server (List ℕ)
server fds n = record {
  buf = 0 ∷ 0 ∷ 0 ∷ 0 ∷ 0 ∷ 0 ∷ 0 ∷ 0 ∷ 0 ∷ 0 ∷ [];
  ol_con = n;
  cli_fds = fds;
  rd_set = λ fd. false;
  n_handlers = 0;
  sys = [];
}

abbrev all_ready : Selected
all_ready = ready (λ fd. if fd == 3 then false else true) none

one_client : IsTable 2 (server (pos 4 ∷ negsuc 0 ∷ []) 1)
unfolding occurs taken is_fd
one_client = (refl, λ fd. ground arith, refl)

client_handler-IsTable_example :
    ((r : ℤ × Server (List ℕ)) × (client_handler net 1 4 (server (pos 4 ∷ negsuc 0 ∷ []) 1)
        ≡ gives r)
      × IsTable 2 r.1)
    ⊎ (HasLongName (0 ∷ 0 ∷ 0 ∷ 0 ∷ 0 ∷ 0 ∷ 0 ∷ 0 ∷ 0 ∷ 0 ∷ [])
        × (client_handler net 1 4 (server (pos 4 ∷ negsuc 0 ∷ []) 1) ≡ undefined))
unfolding read_again
client_handler-IsTable_example =
    client_handler-IsTable net 2 1 0 4 (server (pos 4 ∷ negsuc 0 ∷ []) 1) (got []) [] refl
      one_client (omega arith) (omega arith) refl

run-undefined_example :
    run net 3 1 3 []
      (all_ready ∷ timed_out ∷ all_ready ∷ [])
      (server (pos 4 ∷ pos 5 ∷ negsuc 0 ∷ []) 2)
    ≡ undefined
unfolding read_again
run-undefined_example =
    run-undefined net 3 1 3 [] 4 5 (negsuc 0) [] (λ fd. if fd == 3 then false else true)
      (λ fd. if fd == 3 then false else true) none none 1 [] (server [] 0) [] (omega arith)
      (omega arith) refl refl refl refl

-- what has been written after some rounds
abbrev written : List Selected → List ℤ → ℕ → Behaviour (List ℕ)
written es fds n = and_then (run net 2 1 3 [] es (server fds n)) (λ s. gives s.sys)

-- a client in the first slot is served as often as it asks
first_slot : written (all_ready ∷ all_ready ∷ []) (pos 5 ∷ negsuc 0 ∷ []) 1 ≡ gives (5 ∷ 5 ∷ [])
unfolding run c_string strstr strchr behind get_filename read_again file_send2 handle_request
first_slot = refl

-- with a full table, the close of a client goes behind it
full_table : written (all_ready ∷ []) (pos 4 ∷ pos 5 ∷ []) 2 ≡ undefined
unfolding run read_again
full_table = refl
