-- ===== src/Huff/Archive.antt =====
-- 01DataStruct/08Huffman/huff.c: the compressed file. A file is the list of its bytes; the header, a
-- structure that `fwrite` and `fread` copy, is kept as that structure.
pub mod Bits
pub mod Reading
pub mod RoundTrip
use demo_class.Common.{
  ℕ, zero, suc, ◌+◌, ◌-◌, ◌*◌, ◌/◌, ◌%◌, Bool, true, false, Option, none, some, ◌>>=◌, List, [],
  ◌∷◌, ◌++◌, length, ltb, leb, ◌==◌, if◌then◌else◌,
}
use demo_class.Huff.{Huff, leaf_num, unused, huff_prepare}

-- `struct huff_head`, with the first `root + 1` nodes of the table, and the bytes behind it
pub record Archive : Type 0 where
  pub magic : ℕ
  pub kind : ℕ
  pub root : ℕ
  pub file_size : ℕ
  pub table : Huff
  pub body : List ℕ

abbrev pub huff_magic : ℕ
huff_magic = 0x88888888

unfoldable pub hf_make_huff_head : List ℕ → Huff → List ℕ → Archive
hf_make_huff_head src h body = record {
  magic = huff_magic;
  kind = 0x33;
  root = h.root;
  file_size = length src;
  table = h;
  body = body;
}

-- `x >> n`
unfoldable pub shr : ℕ → ℕ → ℕ
shr x zero = x
shr x (suc n) = shr (x / 2) n

-- `x << n`, of an `unsigned char`
unfoldable pub shl : ℕ → ℕ → ℕ
shl x zero = x
shl x (suc n) = shl (x * 2 % 256) n

-- where the writing loop of `huff_compress` stands; `out` holds the written bytes
pub record Writer : Type 0 where
  pub wbuf : ℕ
  pub count : ℕ
  pub out : List ℕ

-- `wbuf <<= 1; wbuf |= bit; ++count`, and the byte is written when it is full
unfoldable pub write_bit : ℕ → Writer → Writer
write_bit bit w =
    let wbuf = w.wbuf * 2 % 256 + bit in
    if w.count + 1 == 8
    then record { wbuf = 0; count = 0; out = w.out ++ wbuf ∷ [] }
    else record { wbuf = wbuf; count = w.count + 1; out = w.out }

-- `for (i = 0; i < CODE_LEN(rbuf); ++i)`, with `k` rounds to go
unfoldable pub write_code : ℕ → ℕ → ℕ → Writer → Writer
unfolding write_bit shr
write_code zero i code w = w
write_code (suc k) i code w = write_code k (suc i) code (write_bit (shr code i % 2) w)

unfoldable pub write_bytes : Huff → List ℕ → Writer → Writer
unfolding write_code
write_bytes h [] w = w
write_bytes h (b ∷ bs) w = write_bytes h bs (write_code (h.code_len b) 0 (h.code b) w)

-- what is left in `wbuf` goes out with zeros behind it
unfoldable pub flush : Writer → List ℕ
unfolding shl
flush w = if w.count == 0 then w.out else w.out ++ shl w.wbuf (8 - w.count) ∷ []

unfoldable pub huff_compress : List ℕ → Huff → Option Archive
huff_compress src h = huff_prepare src h >>= λ t.
    some (
      hf_make_huff_head src t
        (flush (write_bytes t src (record { wbuf = 0; count = 0; out = [] }))))

-- the nodes of the header are copied over those that `info` has; `none` is a wrong magic number
unfoldable pub hf_unpack_huff_head : Archive → Huff → Option Huff
hf_unpack_huff_head z h =
    if z.magic == huff_magic
    then some (record h {
      root = z.root;
      file_size = z.file_size;
      lchild = λ i. if leb i z.root then z.table.lchild i else h.lchild i;
      rchild = λ i. if leb i z.root then z.table.rchild i else h.rchild i;
      parent = λ i. if leb i z.root then z.table.parent i else h.parent i;
      weight = λ i. if leb i z.root then z.table.weight i else h.weight i;
      code = λ i. if leb i z.root then z.table.code i else h.code i;
      code_len = λ i. if leb i z.root then z.table.code_len i else h.code_len i;
    })
    else none

-- where the loops of `huff_decompress` stand; `stopped` is `goto out`
pub record Reader : Type 0 where
  pub cur : ℕ
  pub written : ℕ
  pub out : List ℕ
  pub stopped : Bool

unfoldable pub read_bit : Huff → ℕ → Reader → Reader
read_bit h bit r =
    let cur = if bit == 1 then h.rchild r.cur else h.lchild r.cur in
    if ltb cur leaf_num
    then record {
      cur = h.root;
      written = r.written + 1;
      out = r.out ++ cur ∷ [];
      stopped = r.written + 1 == h.file_size;
    }
    else record r { cur = cur }

-- the bits of a byte, the highest of the `k` that are left first
unfoldable pub read_byte : ℕ → Huff → ℕ → Reader → Reader
unfolding read_bit shr
read_byte zero h rbuf r = r
read_byte (suc k) h rbuf r =
    let r' = read_bit h (shr rbuf k % 2) r in
    elim r'.stopped [ true ↦ r' | false ↦ read_byte k h rbuf r' ]

unfoldable pub read_bytes : Huff → List ℕ → Reader → Reader
read_bytes h [] r = r
read_bytes h (b ∷ bs) r =
    let r' = read_byte 8 h b r in elim r'.stopped [ true ↦ r' | false ↦ read_bytes h bs r' ]

unfoldable pub huff_decompress : Archive → Huff → Option (List ℕ)
unfolding hf_unpack_huff_head read_byte read_bytes
huff_decompress z h = hf_unpack_huff_head z h >>= λ t.
    some (read_bytes t z.body (record { cur = t.root; written = 0; out = []; stopped = false })).out
