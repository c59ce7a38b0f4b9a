-- ===== src/EchoServer/Replies.antt =====
-- 03NetPro_thread/06Socket/02Tcp_loop/server.c, 02App_Devel/03IPC/04MsgQueue/03Project/echo_server/server.c: what
-- is sent back.
use demo_class.Common.{
  ℕ, zero, suc, ◌+◌, ◌-◌, ◌<◌, ◌≡◌, refl, ap, ◌∙◌, inl, inr, Bool, Bool-cases, true, false, ◌&&◌,
  arith, List, [], ◌∷◌, ◌++◌, append-nil, append_assoc, map, take, length, ltb, ◌==◌, if◌then◌else◌,
}
use demo_class.Common.Int.{ℤ, pos, negsuc}
use demo_class.FileServer.{Answer, got, interrupted, failed}
use demo_class.CString.{c_string}
use demo_class.Behaviour.{Behaviour, gives, and_then}
use demo_class.EchoServer.{
  capital, toupper, capitals, Peer, client_handler, MsqBuf, upper_loop, msg_handler,
}

-- a connection: what the next reads return, how many bytes the next writes take, none if nothing is said, the bytes
-- that have been taken, and whether it is closed
pub record Line : Type 0 where
  pub answers : List Answer
  pub rooms : List ℕ
  pub out : List ℕ
  pub closed : Bool

-- what a read takes, the end of the connection if there is nothing more
abbrev pub next_answer : List Answer → Answer × List Answer
next_answer [] = (got [], [])
next_answer (a ∷ reads) = (a, reads)

-- how many bytes a write takes
abbrev pub next_room : List ℕ → ℕ × List ℕ
next_room [] = (0, [])
next_room (n ∷ rooms) = (n, rooms)

abbrev pub connection : Peer Line
connection = record {
  read = λ d. let (a, reads) = next_answer d.answers in (a, record d { answers = reads });
  write = λ bytes d.
      let (n, rooms) = next_room d.rooms in record d { rooms = rooms; out = d.out ++ take n bytes };
  close = λ d. record d { closed = true };
}

-- what is taken of the answers to the reads before the last: of each, a first part in capitals
abbrev pub replies : List Answer → List ℕ → List ℕ
replies [] rooms = []
replies (got bytes ∷ reads) rooms =
    take (next_room rooms).0 (map capital bytes) ++ replies reads (next_room rooms).1
replies (interrupted ∷ reads) rooms = replies reads rooms
replies (failed ∷ reads) rooms = replies reads rooms

-- what the writes behind them will take
abbrev pub rooms_left : List Answer → List ℕ → List ℕ
rooms_left [] rooms = rooms
rooms_left (got bytes ∷ reads) rooms = rooms_left reads (next_room rooms).1
rooms_left (interrupted ∷ reads) rooms = rooms_left reads rooms
rooms_left (failed ∷ reads) rooms = rooms_left reads rooms

abbrev pub IsAscii : List ℕ → Type 0
IsAscii [] = Unit
IsAscii (c ∷ cs) = (c < 128) × IsAscii cs

-- none of them ends the connection, and all bytes are ASCII
abbrev pub IsOpen : List Answer → Type 0
IsOpen [] = Unit
IsOpen (got [] ∷ reads) = ⊥
IsOpen (got (x ∷ xs) ∷ reads) = IsAscii (x ∷ xs) × IsOpen reads
IsOpen (interrupted ∷ reads) = IsOpen reads
IsOpen (failed ∷ reads) = ⊥

capitals-IsAscii : (cs : List ℕ) → IsAscii cs → capitals cs ≡ gives (map capital cs)
unfolding capitals toupper
capitals-IsAscii [] a = refl
capitals-IsAscii (c ∷ cs) (small, a) =
    let rest = capitals-IsAscii cs a in let t : ltb c 128 ≡ true = ground arith in rw (t, rest) refl

abbrev ended : Bool → List Answer → List ℕ → List ℕ → Behaviour (ℤ × Line)
ended error rest rooms out = gives (
  if error then negsuc 0 else pos 0,
  record { answers = rest; rooms = rooms; out = out; closed = true },
)

-- Where all bytes are ASCII: whatever interrupts the reads, what is sent back of each read before the end of the
-- connection is its bytes in capitals, in order, as far as the write takes them, and the rest of them is lost; the
-- connection is closed, and the call returns 0, or -1 if it is an error that ends it.
pub client_handler-capitals :
    (k : ℕ) (reads rest : List Answer) (rooms out : List ℕ) (closed error : Bool)
    → IsOpen reads
    → length reads < k
    → client_handler connection k (record {
      answers = reads ++ (if error then failed else got []) ∷ rest;
      rooms = rooms;
      out = out;
      closed = closed;
    })
      ≡ gives (
        if error then negsuc 0 else pos 0,
        record {
          answers = rest;
          rooms = rooms_left reads rooms;
          out = out ++ replies reads rooms;
          closed = true;
        },
      )
unfolding client_handler
client_handler-capitals zero reads rest rooms out closed error o fuel = absurd (omega arith)
client_handler-capitals (suc k) [] rest rooms out closed true o fuel = rw append-nil refl
client_handler-capitals (suc k) [] rest rooms out closed false o fuel = rw append-nil refl
client_handler-capitals (suc k) (got [] ∷ reads) rest rooms out closed error o fuel = absurd o
client_handler-capitals (suc k) (got (x ∷ xs) ∷ reads) rest rooms out closed error (a, o) fuel =
    let line : Line = record {
      answers = reads ++ (if error then failed else got []) ∷ rest;
      rooms = rooms;
      out = out;
      closed = closed;
    } in
    let taken = take (next_room rooms).0 (map capital (x ∷ xs)) in
    ap
      (λ (text : Behaviour (List ℕ)).
        and_then text (λ t. client_handler connection k (connection.write t line)))
      (capitals-IsAscii (x ∷ xs) a)
    ∙ client_handler-capitals k reads rest (next_room rooms).1 (out ++ taken) closed error o
        (omega arith)
    ∙ ap (ended error rest (rooms_left reads (next_room rooms).1))
        (append_assoc out taken (replies reads (next_room rooms).1))
client_handler-capitals (suc k) (interrupted ∷ reads) rest rooms out closed error o fuel =
    client_handler-capitals k reads rest rooms out closed error o (omega arith)
client_handler-capitals (suc k) (failed ∷ reads) rest rooms out closed error o fuel = absurd o

upper-capital : (c : ℕ) → (if ltb (b'a' - 1) c && ltb c (b'z' + 1) then c - 32 else c) ≡ capital c
upper-capital c = ground arith

-- the test of `msg_handler` is that of `toupper`, up to the NUL
upper_loop-eq : (buf : List ℕ) → upper_loop buf ≡ map capital (c_string buf) ++ 0 ∷ []
unfolding upper_loop c_string
upper_loop-eq [] = refl
upper_loop-eq (c ∷ cs) =
    let rest = upper_loop-eq cs in
    elim (Bool-cases (c == 0)) [ inl y ↦ rw y refl | inr n ↦ let e = upper-capital c in rw n cc ]

-- The message server sends back, to the one that a message came from, its text in capitals with the NUL: what
-- the connection server sends back of the same text where its bytes are ASCII.
pub msg_handler-capitals :
    {D : Type 0} (msgsnd : MsqBuf → D → Bool × D) (buf : MsqBuf) (d : D)
    → msg_handler msgsnd buf d ≡ (
      if (msgsnd
            (record { mtype = buf.mtype; mdata = map capital (c_string buf.mdata) ++ 0 ∷ [] })
            d).0
          then pos 0
          else negsuc 0,
      (msgsnd
          (record { mtype = buf.mtype; mdata = map capital (c_string buf.mdata) ++ 0 ∷ [] })
          d).1,
    )
unfolding msg_handler
msg_handler-capitals msgsnd buf d =
    ap
      (λ (text : List ℕ). (
        if (msgsnd (record { mtype = buf.mtype; mdata = text }) d).0 then pos 0 else negsuc 0,
        (msgsnd (record { mtype = buf.mtype; mdata = text }) d).1,
      ))
      (upper_loop-eq buf.mdata)
