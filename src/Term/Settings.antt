-- ===== src/Term/Settings.antt =====
-- 03NetPro_thread/03Termios/term.c: the settings of the line. What `termios.h` defines is a parameter.
use Prim.Native.Nat.{bit_and, bit_or}
use demo_class.Common.{
  ℕ, suc, ◌-◌, ◌≡◌, ◌≢◌, refl, sym, ap, ◌∙◌, Bool, true, false, ◌||◌, Option, some, none, List, [],
  ◌∷◌, arith, get_elem?, ◌==◌, if◌then◌else◌,
}
use demo_class.Common.Int.{ℤ, pos, negsuc}

-- `struct termios`
pub record Termios : Type 0 where
  pub c_iflag : ℕ
  pub c_oflag : ℕ
  pub c_cflag : ℕ
  pub vtime : ℕ
  pub vmin : ℕ
  pub ispeed : ℕ
  pub ospeed : ℕ

-- the bits that `termios.h` names, and the code `B…` that it has for a speed
pub record Codes : Type 0 where
  pub baud : ℕ → ℕ
  pub csize : ℕ
  pub cs7 : ℕ
  pub cs8 : ℕ
  pub cstopb : ℕ
  pub parenb : ℕ
  pub parodd : ℕ
  pub inpck : ℕ
  pub flow_in : ℕ
  pub local_control : ℕ
  pub opost : ℕ

-- the calls; `tcgetattr` gives whether it succeeds and what `info->set` holds then
pub record Tty (D : Type 0) : Type 0 where
  pub tcgetattr : D → Termios → Bool × Termios
  pub tcsetattr : Termios → D → Bool × D
  pub tcflush : D → D

abbrev pub name_arr : List ℕ
name_arr = 230400 ∷ 115200 ∷ 57600 ∷ 38400 ∷ 19200 ∷ 9600 ∷ 4800 ∷ []

abbrev pub speed_arr : Codes → List ℕ
speed_arr codes =
    codes.baud 230400
    ∷ codes.baud 115200
    ∷ codes.baud 57600
    ∷ codes.baud 38400
    ∷ codes.baud 19200
    ∷ codes.baud 9600
    ∷ codes.baud 4800
    ∷ []

-- `for (i = 0; …; ++i)` up to the speed, or up to the end
unfoldable pub speed_loop : ℕ → ℕ → List ℕ → ℕ
speed_loop speed i [] = i
speed_loop speed i (name ∷ names) =
    let rest = speed_loop speed (suc i) names in if speed == name then i else rest

-- `x & ~m`
abbrev pub clear : ℕ → ℕ → ℕ
clear x m = bit_and x (0xFFFFFFFF - m)

-- a return, the `exit` that stands in `ALERT_PRINT`, or what C leaves undefined
pub data Outcome (D : Type 0) : Type 0 where
  returned : ℤ → Termios → D → Outcome D
  exited : Outcome D
  undefined : Outcome D

module _ {D : Type 0} (tty : Tty D) (codes : Codes) where
  -- a round of the loop that has found the speed, and the flush behind the loop; or no round has, and
  -- `LOG_PRINT` reads `name_arr` behind its end
  unfoldable pub use_speed : Termios → D → Option ℕ → Outcome D
  use_speed set d none = undefined
  use_speed set d (some code) =
      let set' : Termios = record set { ispeed = code; ospeed = code } in
      let (ok, d') = tty.tcsetattr set' (tty.tcflush d) in
      if ok then returned (pos 0) set' (tty.tcflush d') else returned (negsuc 0) set' d'

  unfoldable pub term_set_speed : ℕ → Termios → D → Outcome D
  unfolding use_speed speed_loop
  term_set_speed speed set d =
      use_speed (tty.tcgetattr d set).1 d
        (get_elem? (speed_arr codes) (speed_loop speed 0 name_arr))

  abbrev clear_data_bit : Termios → Termios
  clear_data_bit set = record set { c_cflag = clear set.c_cflag codes.csize }

  -- `switch (data_bit)`: its last label is spelled `defalut`, so no other number is refused
  unfoldable pub set_data_bit : ℕ → Termios → Termios
  set_data_bit data_bit set =
      if data_bit == 7
      then record set { c_cflag = bit_or set.c_cflag codes.cs7 }
      else if data_bit == 8
      then record set { c_cflag = bit_or set.c_cflag codes.cs8 }
      else set

  unfoldable pub set_stop_bit : ℕ → Termios → Option Termios
  set_stop_bit stop_bit set =
      if stop_bit == 1
      then some (record set { c_cflag = clear set.c_cflag codes.cstopb })
      else if stop_bit == 2
      then some (record set { c_cflag = bit_or set.c_cflag codes.cstopb })
      else none

  unfoldable pub set_parity : ℕ → Termios → Option Termios
  set_parity parity set =
      if parity == b'n' || parity == b'N'
      then some (record set {
        c_cflag = clear set.c_cflag codes.parenb;
        c_iflag = clear set.c_iflag codes.inpck;
      })
      else if parity == b'o' || parity == b'O'
      then some (record set {
        c_cflag = bit_and set.c_cflag (bit_or codes.parodd codes.parenb);
        c_iflag = bit_or set.c_iflag codes.inpck;
      })
      else if parity == b'e' || parity == b'E'
      then some (record set {
        c_cflag = bit_or (clear set.c_cflag codes.parodd) codes.parenb;
        c_iflag = bit_or set.c_iflag codes.inpck;
      })
      else none

  -- flow control off, and the limits of a read
  unfoldable pub set_limits : Termios → Termios
  set_limits set = record set {
    c_iflag = clear set.c_iflag codes.flow_in;
    c_cflag = clear set.c_cflag codes.local_control;
    c_oflag = clear set.c_oflag codes.opost;
    vtime = 150;
    vmin = 0;
  }

  -- `term_set_attr` behind the first `switch`
  unfoldable pub set_rest : ℕ → ℕ → D → Termios → Outcome D
  unfolding set_stop_bit set_parity set_limits
  set_rest stop_bit parity d set = elim (set_stop_bit stop_bit set) [
    | none ↦ exited
    | some set' ↦ elim (set_parity parity set') [
      | none ↦ returned (negsuc 0) set' d
      | some set'' ↦
          let (ok, d') = tty.tcsetattr (set_limits set'') (tty.tcflush d) in
          returned (if ok then pos 0 else negsuc 0) (set_limits set'') d'
    ]
  ]

  unfoldable pub term_set_attr : ℕ → ℕ → ℕ → Termios → D → Outcome D
  term_set_attr data_bit stop_bit parity set d =
      let (ok, set') = tty.tcgetattr d set in
      elim ok [
        | false ↦ returned (negsuc 0) set' d
        | true ↦ set_rest stop_bit parity d (set_data_bit data_bit (clear_data_bit set'))
      ]

  set_data_bit-other :
      (data_bit : ℕ) (set : Termios) → data_bit ≢ 7 → data_bit ≢ 8 → set_data_bit data_bit set ≡ set
  unfolding set_data_bit
  set_data_bit-other data_bit set ne ne' =
      let not_7 : (data_bit == 7) ≡ false = ground arith in
      let not_8 : (data_bit == 8) ≡ false = ground arith in rw (not_7, not_8) refl

  -- `term_set_attr` does not refuse any number of data bits: all but 7 and 8 do what 5 does.
  pub term_set_attr-data_bit :
      (data_bit stop_bit parity : ℕ) (set : Termios) (d : D)
      → data_bit ≢ 7
      → data_bit ≢ 8
      → term_set_attr data_bit stop_bit parity set d ≡ term_set_attr 5 stop_bit parity set d
  unfolding term_set_attr
  term_set_attr-data_bit data_bit stop_bit parity set d ne ne' =
      let (ok, set') = tty.tcgetattr d set in
      let cleared = clear_data_bit set' in
      let same =
        set_data_bit-other data_bit cleared ne ne'
        ∙ sym (set_data_bit-other 5 cleared (omega arith) (omega arith)) in
      ap
        (λ q. elim ok as (λ _. Outcome D) [
          | false ↦ returned (negsuc 0) set' d
          | true ↦ set_rest stop_bit parity d q
        ])
        same
