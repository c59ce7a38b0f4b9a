-- ===== src/Term/Life.antt =====
-- 03NetPro_thread/03Termios/term.c: the structure of a line, from `term_init` to `term_destroy`. `assert` does
-- nothing, since the file defines NDEBUG; the pointers to the functions are left out.
use demo_class.Common.{
  ℕ, ◌≡◌, sym, ap, inl, inr, Bool-cases, some-injective, Option, none, some, ◌==◌, if◌then◌else◌,
}
use demo_class.Common.Int.{ℤ, pos, negsuc}

-- the descriptor, and the address of the settings
pub record TermInfo : Type 0 where
  pub fd_dev : ℤ
  pub set : ℕ

-- `block` is what `malloc` gives, 0 for NULL; `none` is the end of the program in `ALERT_PRINT`
unfoldable pub term_init : ℕ → Option TermInfo
term_init block = if block == 0 then none else some (record { fd_dev = negsuc 0; set = block })

-- `opened` is what `open` returns: a descriptor, or -1
unfoldable pub term_open_dev : ℤ → TermInfo → ℤ × TermInfo
term_open_dev (pos fd) line = (pos 0, record line { fd_dev = pos fd })
term_open_dev (negsuc e) line = (negsuc 0, record line { fd_dev = negsuc e })

-- the block that is given to `free`; the descriptor is not closed
unfoldable pub term_destroy : TermInfo → ℕ
term_destroy line = line.set

set-of : (block : ℕ) (line : TermInfo) → term_init block ≡ some line → line.set ≡ block
unfolding term_init
set-of block line e = elim (Bool-cases (block == 0)) [
  | inl y ↦ absurd (let e' = rw (y, term_init) at e in cc)
  | inr n ↦ ap (λ (l : TermInfo). l.set) (sym (some-injective (rw (n, term_init) at e)))
]

-- `term_destroy` frees what `term_init` has got, whatever `open` returns between them.
term_destroy-term_init :
    (block : ℕ) (opened : ℤ) (line : TermInfo)
    → term_init block ≡ some line
    → term_destroy (term_open_dev opened line).1 ≡ block
unfolding term_init term_open_dev term_destroy
term_destroy-term_init block (pos fd) line e = set-of block line e
term_destroy-term_init block (negsuc n) line e = set-of block line e
