-- ===== src/EchoServer/Tests.antt =====
-- A connection that is interrupted, and brings "aZ" and "b" before it ends; the first write
-- takes one byte only.
use demo_class.Common.{◌≡◌, arith, true, false, List, [], ◌∷◌}
use demo_class.Common.Int.{pos}
use demo_class.FileServer.{Answer, got, interrupted, failed}
use demo_class.Behaviour.{gives}
use demo_class.EchoServer.{client_handler}
use demo_class.EchoServer.Replies.{connection, client_handler-capitals}

abbrev reads : List Answer
reads = got (b'a' ∷ b'Z' ∷ []) ∷ interrupted ∷ got (b'b' ∷ []) ∷ []

client_handler-capitals_example :
    client_handler connection 4 (record {
      answers = got (b'a' ∷ b'Z' ∷ []) ∷ interrupted ∷ got (b'b' ∷ []) ∷ got [] ∷ failed ∷ [];
      rooms = 1 ∷ 5 ∷ 7 ∷ [];
      out = [];
      closed = false;
    })
    ≡ gives (
      pos 0,
      record { answers = failed ∷ []; rooms = 7 ∷ []; out = b'A' ∷ b'B' ∷ []; closed = true },
    )
client_handler-capitals_example =
    client_handler-capitals 4 reads (failed ∷ []) (1 ∷ 5 ∷ 7 ∷ []) [] false false
      ((omega arith, (omega arith, tt)), ((omega arith, tt), tt)) (omega arith)
