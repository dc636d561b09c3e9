-- ===== src/Modem/Buffers/Copy.antt =====
-- What is copied from one buffer to another through the example channels of src/modem.h.
use native.Mathlib.Nat.{mod-eq_of_lt, add-mod_right, pow-le-pow_right}
use libmodem.Prelude.{
  ℕ, ◌+◌, ◌-◌, ◌^◌, ◌≤◌, ◌<◌, ◌≡◌, refl, ap, sym, ◌∙◌, ◌⊎◌, inl, inr, Bool, false, List, ◌++◌,
  length, take, drop, arith, min, length-append, length-take, length-drop, append_assoc,
}
use libmodem.Prelude.Int.{pos}
use libmodem.Xmodem.Buffer.{take-append, take-all}
use libmodem.Xmodem.Session.{to_signed}
use libmodem.Modem.Buffers.{BufReader, BufWriter, space_left, smaller, read_from_buf, write_to_buf}

take-min : (n : ℕ) (xs : List ℕ) → take (min n (length xs)) xs ≡ take n xs
take-min n xs = elim (total n (length xs)) [
  | inl h ↦ ap (λ k. take k xs) (omega (arith, h))
  | inr h ↦
      ap (λ k. take k xs) (omega (arith, h))
      ∙ take-all (length xs) xs (omega arith)
      ∙ sym (take-all n xs h)
]
  where
    total : (a b : ℕ) → (a ≤ b) ⊎ (b ≤ a)
    total a b = omega arith

module _ (int_bits size_bits : ℕ) where
  -- A position within a buffer whose length is an `int`.
  abbrev pub IsWithin : ℕ → ℕ → List ℕ → Type 0
  IsWithin bufpos buflen buf =
      (bufpos ≤ buflen) × (buflen ≡ length buf) × (buflen < 2 ^ (int_bits - 1))

  half_of : (w : ℕ) → 2 ^ (w - 1) ≤ 2 ^ w
  half_of w = pow-le-pow_right {n = 2} (omega arith) {i = w - 1} {j = w} (omega arith)

  module _ (wide : int_bits ≤ size_bits) where
    int_fits : (n : ℕ) → n < 2 ^ (int_bits - 1) → (n < 2 ^ int_bits) × (n < 2 ^ size_bits)
    int_fits n small =
        let a = half_of int_bits in
        let b : 2 ^ int_bits ≤ 2 ^ size_bits =
          pow-le-pow_right {n = 2} (omega arith) {i = int_bits} {j = size_bits} wide in
        (omega (arith, a), omega (arith, a, b))

    signed : (w n : ℕ) → n < 2 ^ (w - 1) → to_signed w n ≡ pos n
    signed w n small = ground arith

    space_left_lem :
        (buflen bufpos : ℕ)
        → bufpos ≤ buflen
        → buflen < 2 ^ (int_bits - 1)
        → space_left int_bits size_bits buflen bufpos ≡ pos (buflen - bufpos)
    space_left_lem buflen bufpos below small =
        let d : ℕ = buflen - bufpos in
        let (fits, fits') = int_fits d (omega arith) in
        let over : buflen + 2 ^ size_bits - bufpos ≡ d + 2 ^ size_bits = omega arith in
        rw
          (
            over,
            add-mod_right d (2 ^ size_bits),
            mod-eq_of_lt {n = d} {m = 2 ^ size_bits} fits',
            mod-eq_of_lt {n = d} {m = 2 ^ int_bits} fits,
          )
          (signed int_bits d (omega arith))

    smaller_lem : (a b : ℕ) → smaller int_bits size_bits (pos a) (pos b) ≡ pos (min b a)
    smaller_lem a b = ground arith

    pub read_from_buf_lem :
        (n last : ℕ) (reader : BufReader)
        → IsWithin (reader.bufpos + last) reader.buflen reader.buf
        → let rest = drop (reader.bufpos + last) reader.buf in
          read_from_buf int_bits size_bits n last reader ≡ record {
            result = pos (min n (length rest));
            bytes = take n rest;
            chan = record reader { bufpos = reader.bufpos + last };
          }
    unfolding read_from_buf
    read_from_buf_lem n last reader (below, whole, small) =
        let bufpos : ℕ = reader.bufpos + last in
        let rest = drop bufpos reader.buf in
        let (fits, fits') = int_fits bufpos (omega arith) in
        let left : reader.buflen - bufpos ≡ length rest =
          omega (arith, length-drop {0} bufpos reader.buf) in
        let (few, few') = int_fits (min n (length rest)) (omega arith) in
        rw
          (
            mod-eq_of_lt {n = bufpos} {m = 2 ^ size_bits} fits',
            space_left_lem reader.buflen bufpos below small,
            smaller_lem (reader.buflen - bufpos) n,
            left,
            mod-eq_of_lt {n = min n (length rest)} {m = 2 ^ size_bits} few',
            take-min n rest,
          )
          refl

    pub write_to_buf_lem :
        (octets : List ℕ) (eof : Bool) (writer : BufWriter)
        → IsWithin writer.bufpos writer.buflen writer.buf
        → let k : ℕ = min (length octets) (writer.buflen - writer.bufpos) in
          write_to_buf int_bits size_bits octets (length octets) eof writer ≡ (
            pos k,
            record writer {
              buf =
                  take writer.bufpos writer.buf
                  ++ (take k octets ++ drop (writer.bufpos + k) writer.buf);
              bufpos = writer.bufpos + k;
            },
          )
    unfolding write_to_buf
    write_to_buf_lem octets eof writer (below, whole, small) =
        let k : ℕ = min (length octets) (writer.buflen - writer.bufpos) in
        let (few, few') = int_fits k (omega arith) in
        let (moved, moved') = int_fits (writer.bufpos + k) (omega arith) in
        rw
          (
            space_left_lem writer.buflen writer.bufpos below small,
            smaller_lem (writer.buflen - writer.bufpos) (length octets),
            mod-eq_of_lt {n = k} {m = 2 ^ size_bits} few',
            mod-eq_of_lt {n = writer.bufpos + k} {m = 2 ^ size_bits} moved',
          )
          refl

    -- Writing at a position of a buffer keeps its length and puts the bytes behind what was there.
    pub written :
        (buf octets : List ℕ) (bufpos k : ℕ)
        → bufpos + k ≤ length buf
        → k ≤ length octets
        → let after = take bufpos buf ++ (take k octets ++ drop (bufpos + k) buf) in
          (length after ≡ length buf) × (take (bufpos + k) after ≡ take bufpos buf ++ take k octets)
    written buf octets bufpos k room enough =
        let front = take bufpos buf in
        let mid = take k octets in
        let back = drop (bufpos + k) buf in
        let a = length-take {0} bufpos buf in
        let b = length-take {0} k octets in
        (
          omega (
            arith,
            a,
            b,
            length-append {0} front (mid ++ back),
            length-append {0} mid back,
            length-drop {0} (bufpos + k) buf,
          ),
          ap (take (bufpos + k)) (sym (append_assoc front mid back))
              ∙ take-append (front ++ mid) back (bufpos + k)
                  (omega (arith, a, b, length-append {0} front mid)),
        )

    -- With positions within buffers whose lengths fit an `int`, and a `size_t` as wide as `int` or
    -- wider: what `read_from_buf` hands out is what is left of its buffer, as far as it was asked
    -- for. Given that, `write_to_buf` returns how much of it its buffer has room for, stores just
    -- that behind what it holds, and stays within its buffer, which keeps its length.
    pub write_to_buf-read_from_buf :
        (n last : ℕ) (reader : BufReader) (writer : BufWriter)
        → IsWithin (reader.bufpos + last) reader.buflen reader.buf
        → IsWithin writer.bufpos writer.buflen writer.buf
        → let f = read_from_buf int_bits size_bits n last reader in
          let (size_sent, writer') =
            write_to_buf int_bits size_bits f.bytes (length f.bytes) false writer in
          let room : ℕ = writer.buflen - writer.bufpos in
          (f.bytes ≡ take n (drop (reader.bufpos + last) reader.buf))
          × (f.result ≡ pos (length f.bytes))
          × (size_sent ≡ pos (min (length f.bytes) room))
          × (take writer'.bufpos writer'.buf ≡ take writer.bufpos writer.buf ++ take room f.bytes)
          × IsWithin writer'.bufpos writer'.buflen writer'.buf
          × (length writer'.buf ≡ length writer.buf)
    write_to_buf-read_from_buf n last reader writer from to =
        let rest = drop (reader.bufpos + last) reader.buf in
        let octets = take n rest in
        let room : ℕ = writer.buflen - writer.bufpos in
        let k : ℕ = min (length octets) room in
        let (same, behind) =
          written writer.buf octets writer.bufpos k (omega (arith, to)) (omega arith) in
        rw (read_from_buf_lem n last reader from, write_to_buf_lem octets false writer to)
          (
            refl,
            ap pos (omega (arith, length-take {0} n rest)),
            refl,
            behind
                ∙ ap (λ xs. take writer.bufpos writer.buf ++ xs)
                    (ap (λ j. take j octets) (omega arith) ∙ take-min room octets),
            (omega (arith, to), omega (arith, same, to), to.2),
            same,
          )
