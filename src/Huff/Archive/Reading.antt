-- ===== src/Huff/Archive/Reading.antt =====
-- The bytes of a compressed file are read as one row of bits.
use demo_class.Common.{
  ℕ, zero, suc, ◌%◌, ◌≡◌, refl, sym, ap, ◌∙◌, inl, inr, Bool, true, false, List, [], ◌∷◌, ◌++◌,
  Bool-cases,
}
use demo_class.Huff.{Huff}
use demo_class.Huff.Archive.{Reader, shr, read_bit, read_byte, read_bytes}
use demo_class.Huff.Archive.Bits.{low_bits, all_bits}

-- the bits of the file as one row, up to the last byte that is to be written
unfoldable pub read_bits : Huff → List ℕ → Reader → Reader
read_bits h [] r = r
read_bits h (bit ∷ bits) r =
    let r' = read_bit h bit r in elim r'.stopped [ true ↦ r' | false ↦ read_bits h bits r' ]

-- how each of the loops goes on after a step
abbrev step : Reader → Reader → Bool → Reader
step here rest s = elim s [ true ↦ here | false ↦ rest ]

module _ (h : Huff) where
  pub read_bits-more :
      (bit : ℕ) (bits : List ℕ) (r : Reader)
      → (read_bit h bit r).stopped ≡ false
      → read_bits h (bit ∷ bits) r ≡ read_bits h bits (read_bit h bit r)
  unfolding read_bits
  read_bits-more bit bits r e = ap (step (read_bit h bit r) (read_bits h bits (read_bit h bit r))) e

  pub read_bits-stop :
      (bit : ℕ) (bits : List ℕ) (r : Reader)
      → (read_bit h bit r).stopped ≡ true
      → read_bits h (bit ∷ bits) r ≡ read_bit h bit r
  unfolding read_bits
  read_bits-stop bit bits r e = ap (step (read_bit h bit r) (read_bits h bits (read_bit h bit r))) e

  pub read_bits-none : (r : Reader) → read_bits h [] r ≡ r
  unfolding read_bits
  read_bits-none r = refl

  pub append-stop :
      (xs ys : List ℕ) (r : Reader)
      → r.stopped ≡ false
      → (read_bits h xs r).stopped ≡ true
      → read_bits h (xs ++ ys) r ≡ read_bits h xs r
  append-stop [] ys r e s = absurd (cc (read_bits-none r))
  append-stop (x ∷ xs) ys r e s = elim (Bool-cases ((read_bit h x r).stopped)) [
    | inl stop ↦ read_bits-stop x (xs ++ ys) r stop ∙ sym (read_bits-stop x xs r stop)
    | inr more ↦
        read_bits-more x (xs ++ ys) r more
        ∙ append-stop xs ys (read_bit h x r) more
            (ap (λ q. q.stopped) (sym (read_bits-more x xs r more)) ∙ s)
        ∙ sym (read_bits-more x xs r more)
  ]

  pub append-more :
      (xs ys : List ℕ) (r : Reader)
      → r.stopped ≡ false
      → (read_bits h xs r).stopped ≡ false
      → read_bits h (xs ++ ys) r ≡ read_bits h ys (read_bits h xs r)
  append-more [] ys r e s = ap (read_bits h ys) (sym (read_bits-none r))
  append-more (x ∷ xs) ys r e s = elim (Bool-cases ((read_bit h x r).stopped)) [
    | inl stop ↦ absurd (cc (read_bits-stop x xs r stop))
    | inr more ↦
        read_bits-more x (xs ++ ys) r more
        ∙ append-more xs ys (read_bit h x r) more
            (ap (λ q. q.stopped) (sym (read_bits-more x xs r more)) ∙ s)
        ∙ ap (read_bits h ys) (sym (read_bits-more x xs r more))
  ]

  read_byte-read_bits :
      (k : ℕ) (b : ℕ) (r : Reader) → read_byte k h b r ≡ read_bits h (low_bits k b) r
  unfolding read_byte
  read_byte-read_bits zero b r = sym (read_bits-none r)
  read_byte-read_bits (suc k) b r =
      let bit = shr b k % 2 in
      let stepped = step (read_bit h bit r) (read_byte k h b (read_bit h bit r)) in
      elim (Bool-cases ((read_bit h bit r).stopped)) [
        | inl stop ↦ ap stepped stop ∙ sym (read_bits-stop bit (low_bits k b) r stop)
        | inr more ↦
            ap stepped more
            ∙ read_byte-read_bits k b (read_bit h bit r)
            ∙ sym (read_bits-more bit (low_bits k b) r more)
      ]

  bytes_more :
      (b : ℕ) (bs : List ℕ) (r : Reader)
      → (read_byte 8 h b r).stopped ≡ false
      → read_bytes h (b ∷ bs) r ≡ read_bytes h bs (read_byte 8 h b r)
  unfolding read_bytes
  bytes_more b bs r e = ap (step (read_byte 8 h b r) (read_bytes h bs (read_byte 8 h b r))) e

  bytes_stop :
      (b : ℕ) (bs : List ℕ) (r : Reader)
      → (read_byte 8 h b r).stopped ≡ true
      → read_bytes h (b ∷ bs) r ≡ read_byte 8 h b r
  unfolding read_bytes
  bytes_stop b bs r e = ap (step (read_byte 8 h b r) (read_bytes h bs (read_byte 8 h b r))) e

  pub read_bytes-read_bits :
      (bs : List ℕ) (r : Reader)
      → r.stopped ≡ false
      → read_bytes h bs r ≡ read_bits h (all_bits bs) r
  unfolding read_bytes
  read_bytes-read_bits [] r e = sym (read_bits-none r)
  read_bytes-read_bits (b ∷ bs) r e =
      let same = read_byte-read_bits 8 b r in
      elim (Bool-cases ((read_byte 8 h b r).stopped)) [
        | inl stop ↦
            bytes_stop b bs r stop
            ∙ same
            ∙ sym (
                append-stop (low_bits 8 b) (all_bits bs) r e
                  (ap (λ q. q.stopped) (sym same) ∙ stop))
        | inr more ↦
            bytes_more b bs r more
            ∙ read_bytes-read_bits bs (read_byte 8 h b r) more
            ∙ ap (read_bits h (all_bits bs)) same
            ∙ sym (
                append-more (low_bits 8 b) (all_bits bs) r e
                  (ap (λ q. q.stopped) (sym same) ∙ more))
      ]
