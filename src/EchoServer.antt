-- ===== src/EchoServer.antt =====
-- Two servers that send back what they get in capitals: 03NetPro_thread/06Socket/02Tcp_loop/server.c, a child
-- for each connection, and 02App_Devel/03IPC/04MsgQueue/03Project/echo_server/server.c, on a message queue. The
-- calls of the system are a parameter; `toupper` is that of the C locale. The rounds given as fuel are
-- for the reads.
pub mod Replies
mod Tests
use demo_class.Common.{
  ℕ, zero, suc, ◌+◌, ◌-◌, Bool, true, false, ◌&&◌, Option, none, some, ◌>>=◌, List, [], ◌∷◌, map,
  ltb, leb, ◌==◌, if◌then◌else◌,
}
use demo_class.Common.Int.{ℤ, pos, negsuc}
use demo_class.Behaviour.{Behaviour, out_of_rounds, undefined, gives, and_then}
use demo_class.FileServer.{Answer, got, interrupted, failed}

-- of an ASCII byte
abbrev pub capital : ℕ → ℕ
capital c = if leb b'a' c && leb c b'z' then c - 32 else c

-- a byte of `buf`, a `char`: from 128 on it is negative, and C leaves undefined what `toupper` does
unfoldable pub toupper : ℕ → Behaviour ℕ
toupper c = if ltb c 128 then gives (capital c) else undefined

-- the `for` over the bytes that have been read
unfoldable pub capitals : List ℕ → Behaviour (List ℕ)
unfolding toupper
capitals [] = gives []
capitals (c ∷ cs) =
    let rest = capitals cs in and_then (toupper c) (λ u. and_then rest (λ us. gives (u ∷ us)))

-- `read` of at most BUF_SIZE - 1 bytes, where only EINTR counts as interrupted, `write`, whose result is
-- ignored, and `close`
pub record Peer (D : Type 0) : Type 0 where
  pub read : D → Answer × D
  pub write : List ℕ → D → D
  pub close : D → D

module _ {D : Type 0} (peer : Peer D) where
  -- both loops of `client_handler`, a round for each read
  unfoldable pub client_handler : ℕ → D → Behaviour (ℤ × D)
  unfolding capitals
  client_handler zero d = out_of_rounds
  client_handler (suc k) d =
      let (answer, d') = peer.read d in
      elim answer [
        | got bytes ↦ elim bytes [
          | [] ↦ gives (pos 0, peer.close d')
          | x ∷ xs ↦ and_then (capitals (x ∷ xs)) (λ text. client_handler k (peer.write text d'))
        ]
        | interrupted ↦ client_handler k d'
        | failed ↦ gives (negsuc 0, peer.close d')
      ]

pub record MsqBuf : Type 0 where
  pub mtype : ℤ
  pub mdata : List ℕ

-- the loop of `msg_handler`, and the NUL behind it
unfoldable pub upper_loop : List ℕ → List ℕ
upper_loop [] = 0 ∷ []
upper_loop (c ∷ cs) =
    let rest = upper_loop cs in
    if c == 0 then 0 ∷ [] else (if ltb (b'a' - 1) c && ltb c (b'z' + 1) then c - 32 else c) ∷ rest

-- what is given to `msgsnd`, with the NUL; and whether that succeeds
unfoldable pub msg_handler : {D : Type 0} → (MsqBuf → D → Bool × D) → MsqBuf → D → ℤ × D
unfolding upper_loop
msg_handler msgsnd buf d =
    let (sent, d') = msgsnd (record { mtype = buf.mtype; mdata = upper_loop buf.mdata }) d in
    (if sent then pos 0 else negsuc 0, d')
