-- ===== src/Term.antt =====
-- 03NetPro_thread/03Termios/term.c: reading from and writing to a serial line, with signals that
-- interrupt the calls. The system's calls are a parameter. A buffer is the list of the bytes that have
-- been put into it; `none` says that the rounds, given as fuel, were too few.
pub mod Reads
pub mod Writes
pub mod Lines
pub mod Settings
pub mod Speed
pub mod Life
mod Tests
use demo_class.Common.{
  ℕ, zero, suc, ◌+◌, ◌-◌, Bool, true, false, ◌||◌, Option, none, some, ◌>>=◌, List, [], ◌∷◌, ◌++◌,
  length, drop, get_or, ◌==◌, if◌then◌else◌,
}
use demo_class.Common.Int.{ℤ, pos, negsuc}

-- what `read` and `write` return: the bytes that were read, the number of those written, or -1 with `errno`
pub data Read : Type 0 where
  got : List ℕ → Read
  read_failed : ℕ → Read

pub data Write : Type 0 where
  wrote : ℕ → Write
  write_failed : ℕ → Write

-- the calls on an open device, whose state is a `D`; `flush` is `tcflush(fd, TCOFLUSH)`
pub record Device (D : Type 0) : Type 0 where
  pub read : ℕ → D → Read × D
  pub write : List ℕ → D → Write × D
  pub flush : D → D
  pub eintr : ℕ

abbrev pub ends_line : ℕ → Bool
ends_line byte = byte == b'\n' || byte == b'\r'

module _ {D : Type 0} (dev : Device D) where
  -- the return value, and the bytes put into the buffer
  unfoldable pub term_read_dev : ℕ → ℕ → D → Option (ℤ × List ℕ × D)
  term_read_dev zero len d = none
  term_read_dev (suc k) len d =
      let (answer, d') = dev.read len d in
      elim answer [
        | got xs ↦ some (pos (length xs), xs, d')
        | read_failed errno ↦ elim (errno == dev.eintr) [
          | true ↦ term_read_dev k len d'
          | false ↦ some (negsuc 0, [], d')
        ]
      ]

  unfoldable pub term_write_dev : ℕ → List ℕ → D → Option (ℤ × D)
  term_write_dev zero buf d = none
  term_write_dev (suc k) buf d =
      let (answer, d') = dev.write buf d in
      elim answer [
        | wrote n ↦ if n == length buf then some (pos n, d') else some (negsuc 0, dev.flush d')
        | write_failed errno ↦ elim (errno == dev.eintr) [
          | true ↦ term_write_dev k buf d'
          | false ↦ some (negsuc 0, d')
        ]
      ]

  -- `while (nleft > 0)`, with the bytes so far; each call gets the fuel `n`
  unfoldable pub read_loop : ℕ → ℕ → ℕ → ℕ → List ℕ → D → Option (ℤ × List ℕ × D)
  read_loop zero n len nleft buf d = none
  read_loop (suc k) n len nleft buf d = elim nleft [
    | zero ↦ some (pos len, buf, d)
    | suc left ↦ term_read_dev n (suc left) d >>= λ r. elim r.0 [
      | negsuc e ↦ some (negsuc e, buf, r.2)
      | pos count ↦ elim count [
        | zero ↦ some (pos (len - suc left), buf, r.2)
        | suc c ↦ read_loop k n len (suc left - suc c) (buf ++ r.1) r.2
      ]
    ]
  ]

  unfoldable pub term_read_nbytes : ℕ → ℕ → ℕ → D → Option (ℤ × List ℕ × D)
  unfolding read_loop
  term_read_nbytes k n len d = read_loop k n len len [] d

  -- the same for the bytes that are left to write
  unfoldable pub write_loop : ℕ → ℕ → ℕ → List ℕ → D → Option (ℤ × D)
  write_loop zero n len rest d = none
  write_loop (suc k) n len rest d = elim rest [
    | [] ↦ some (pos len, d)
    | x ∷ xs ↦ term_write_dev n (x ∷ xs) d >>= λ r. elim r.0 [
      | negsuc e ↦ some (negsuc 0, r.1)
      | pos count ↦ elim count [
        | zero ↦ some (pos (len - length (x ∷ xs)), r.1)
        | suc c ↦ write_loop k n len (drop (suc c) (x ∷ xs)) r.1
      ]
    ]
  ]

  unfoldable pub term_write_nbytes : ℕ → ℕ → List ℕ → D → Option (ℤ × D)
  unfolding write_loop
  term_write_nbytes k n buf d = write_loop k n (length buf) buf d

  -- `do … while (count != max)`; `tmp` keeps its byte where nothing is read
  unfoldable pub line_loop : ℕ → ℕ → ℕ → ℕ → ℕ → List ℕ → D → Option (ℤ × List ℕ × D)
  line_loop zero n max count tmp buf d = none
  line_loop (suc k) n max count tmp buf d = term_read_dev n 1 d >>= λ r. elim r.0 [
    | negsuc e ↦ some (negsuc 0, buf, r.2)
    | pos _ ↦
        let byte = get_or r.1 0 tmp in
        elim (ends_line byte || count + 1 == max) [
          | true ↦ some (pos 0, buf ++ byte ∷ [], r.2)
          | false ↦ line_loop k n max (count + 1) byte (buf ++ byte ∷ []) r.2
        ]
  ]

  unfoldable pub term_read_line : ℕ → ℕ → ℕ → D → Option (ℤ × List ℕ × D)
  unfolding line_loop
  term_read_line k n max d = line_loop k n max 0 0 [] d
