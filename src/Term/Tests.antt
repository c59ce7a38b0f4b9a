-- ===== src/Term/Tests.antt =====
-- A line that brings one byte at a call and takes all that it is offered, with signals before.
use demo_class.Common.{
  if◌then◌else◌, ◌==◌, ℕ, zero, suc, ◌≤◌, ◌≡◌, ◌⊎◌, refl, sym, ap, inl, true, false, some, List, [],
  ◌∷◌, ◌++◌, arith, length,
}
use demo_class.Common.Int.{ℤ, pos, negsuc}
use demo_class.Term.{
  Device, Read, got, read_failed, Write, wrote, write_failed, term_read_nbytes, term_write_nbytes,
  term_read_line,
}
use demo_class.Term.Reads.{IsLine, Answers, term_read_nbytes_lem}
use demo_class.Term.Writes.{IsPort, Accepts, take-length, term_write_nbytes_lem}
use demo_class.Term.Settings.{Termios, Codes, Tty, term_set_speed, set_parity, set_data_bit}
use demo_class.Term.Speed.{SetsSpeed, term_set_speed-SetsSpeed}
use demo_class.Term.Lines.{term_read_line_lem}

record Wire : Type 0 where
  incoming : List ℕ
  outgoing : List ℕ
  signals : ℕ

abbrev eintr : ℕ
eintr = 4

abbrev wire_read : ℕ → List ℕ → List ℕ → Read × Wire
wire_read (suc k) xs out =
    (read_failed eintr, record { incoming = xs; outgoing = out; signals = k })
wire_read zero [] out = (got [], record { incoming = []; outgoing = out; signals = 0 })
wire_read zero (x ∷ xs) out = (got (x ∷ []), record { incoming = xs; outgoing = out; signals = 0 })

abbrev wire_write : List ℕ → ℕ → List ℕ → List ℕ → Write × Wire
wire_write buf (suc k) xs out =
    (write_failed eintr, record { incoming = xs; outgoing = out; signals = k })
wire_write buf zero xs out =
    (wrote (length buf), record { incoming = xs; outgoing = out ++ buf; signals = 0 })

abbrev wire : Device Wire
wire = record {
  read = λ len d. wire_read d.signals d.incoming d.outgoing;
  write = λ buf d. wire_write buf d.signals d.incoming d.outgoing;
  flush = λ d. d;
  eintr = eintr;
}

abbrev wire_answers :
    (len k : ℕ) (xs out : List ℕ)
    → Answers wire
        (λ d. d.incoming)
        (λ d. false)
        (λ d. d.signals)
        (suc len)
        (record { incoming = xs; outgoing = out; signals = k })
        (wire_read k xs out).0
        (wire_read k xs out).1
wire_answers len (suc k) xs out = inl (refl, refl, refl, omega arith)
wire_answers len zero [] out = (refl, refl)
wire_answers len zero (x ∷ xs) out = (refl, omega arith, refl, omega arith)

abbrev wire-IsLine : IsLine wire
wire-IsLine = record {
  input = λ d. d.incoming;
  fails = λ d. false;
  interrupts = λ d. d.signals;
  answers = λ len d. wire_answers len d.signals d.incoming d.outgoing;
}

abbrev wire_accepts :
    (buf : List ℕ) (k : ℕ) (xs out : List ℕ)
    → Accepts wire
        (λ d. d.outgoing)
        (λ d. d.signals)
        buf
        (record { incoming = xs; outgoing = out; signals = k })
        (wire_write buf k xs out).0
        (wire_write buf k xs out).1
wire_accepts buf (suc k) xs out = inl (refl, refl, omega arith)
wire_accepts buf zero xs out = (omega arith, ap (λ q. out ++ q) (sym (take-length buf)))

abbrev wire-IsPort : IsPort wire
wire-IsPort = record {
  output = λ d. d.outgoing;
  interrupts = λ d. d.signals;
  accepts = λ buf d. wire_accepts buf d.signals d.incoming d.outgoing;
}

abbrev start : Wire
start = record { incoming = b'a' ∷ b'b' ∷ b'\n' ∷ b'c' ∷ []; outgoing = []; signals = 2 }

term_read_nbytes_lem_example :
    (d' : Wire) × (term_read_nbytes wire 4 3 3 start ≡ some (pos 3, b'a' ∷ b'b' ∷ b'\n' ∷ [], d'))
    × (3 ≤ 4 → d'.incoming ≡ b'c' ∷ [])
term_read_nbytes_lem_example =
    term_read_nbytes_lem wire wire-IsLine 4 3 3 start (omega arith) (omega arith)

term_write_nbytes_lem_example :
    (v : ℤ) × (d' : Wire) × (term_write_nbytes wire 2 3 (b'x' ∷ b'y' ∷ []) start ≡ some (v, d'))
    × (((v ≡ pos 2) × (d'.outgoing ≡ b'x' ∷ b'y' ∷ [])) ⊎ (v ≡ negsuc 0))
term_write_nbytes_lem_example =
    term_write_nbytes_lem wire wire-IsPort 2 3 b'x' (b'y' ∷ []) start (omega arith) (omega arith)

term_read_line_lem_example :
    (d' : Wire) × (term_read_line wire 10 3 10 start ≡ some (pos 0, b'a' ∷ b'b' ∷ b'\n' ∷ [], d'))
    × (start.incoming ≡ b'a' ∷ b'b' ∷ b'\n' ∷ d'.incoming)
term_read_line_lem_example =
    term_read_line_lem wire wire-IsLine 10 3 10 start (omega arith) (omega arith) (omega arith) refl

-- a line whose state is the speed that it was last set to
abbrev tty : Tty ℕ
tty = record {
  tcgetattr = λ d set. (true, set);
  tcsetattr = λ set d. (true, set.ispeed);
  tcflush = λ d. d;
}

abbrev codes : Codes
codes = record {
  baud = λ speed. if speed == 9600 then 13 else 12;
  csize = 48;
  cs7 = 32;
  cs8 = 48;
  cstopb = 64;
  parenb = 256;
  parodd = 512;
  inpck = 16;
  flow_in = 7168;
  local_control = 27;
  opost = 1;
}

abbrev plain : Termios
plain = record {
  c_iflag = 0;
  c_oflag = 0;
  c_cflag = 48;
  vtime = 0;
  vmin = 0;
  ispeed = 0;
  ospeed = 0;
}

term_set_speed-SetsSpeed_example :
    SetsSpeed tty codes 9600 plain 0 (term_set_speed tty codes 9600 plain 0)
term_set_speed-SetsSpeed_example = term_set_speed-SetsSpeed tty codes 9600 plain 0

-- odd parity clears the 8 data bits that were set before
odd_run :
    set_parity tty codes b'o' (set_data_bit tty codes 8 plain)
    ≡ some (record plain { c_iflag = 16; c_cflag = 0 })
unfolding set_parity set_data_bit
odd_run = refl
