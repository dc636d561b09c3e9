-- ===== src/Modem/Buffers/Channels.antt =====
-- The example channels of src/modem.h as what the transmitter and the receiver ask of a channel.
use libmodem.Prelude.{
  ℕ, zero, suc, ◌+◌, ◌-◌, ◌≤◌, ◌≡◌, refl, ap, sym, ◌∙◌, false, List, [], ◌∷◌, ◌++◌, length, take,
  drop, arith, min, length-drop,
}
use libmodem.Prelude.Int.{pos}
use libmodem.Xmodem.Rx.Packet.{IsWriter}
use libmodem.Xmodem.Tx.Fill.{IsReader}
use libmodem.Xmodem.Buffer.{take-all}
use libmodem.Modem.Buffers.{BufWriter, read_from_buf, write_to_buf}
use libmodem.Modem.Buffers.Copy.{IsWithin, read_from_buf_lem, write_to_buf_lem, written}

drop-nil : (n : ℕ) → ◌≡◌ {A = List ℕ} (drop n []) []
drop-nil zero = refl
drop-nil (suc n) = refl

shifted : (a b : ℕ) → suc (a + b) ≡ suc a + b
shifted a b = omega arith

pub drop-drop : (a b : ℕ) (xs : List ℕ) → drop b (drop a xs) ≡ drop (a + b) xs
drop-drop zero b xs = ap (λ k. drop k xs) (omega arith)
drop-drop (suc a) b [] = drop-nil b ∙ sym (drop-nil (suc a + b))
drop-drop (suc a) b (x ∷ xs) = drop-drop a b xs ∙ ap (λ k. drop k (x ∷ xs)) (shifted a b)

module _ (int_bits size_bits : ℕ) (wide : int_bits ≤ size_bits) where
  -- `read_from_buf` is a channel as the transmitter needs it: it hands out what is left of its
  -- buffer.
  abbrev pub read_from_buf-IsReader : IsReader (read_from_buf int_bits size_bits)
  read_from_buf-IsReader = record {
    file = λ reader. drop reader.bufpos reader.buf;
    Serves =
        λ last reader. IsWithin int_bits size_bits (reader.bufpos + last) reader.buflen reader.buf;
    stays = λ n last next reader h few.
        rw (read_from_buf_lem int_bits size_bits wide n last reader h) (
          omega (
            arith,
            length-drop {0} reader.bufpos reader.buf,
            length-drop {0} last (drop reader.bufpos reader.buf),
            h,
          ),
          h.1,
          h.2,
        );
    moves = λ n last reader h.
        rw
          (
            read_from_buf_lem int_bits size_bits wide n last reader h,
            drop-drop reader.bufpos last reader.buf,
          )
          refl;
    gives = λ n last reader h.
        rw
          (
            read_from_buf_lem int_bits size_bits wide n last reader h,
            drop-drop reader.bufpos last reader.buf,
          )
          refl;
    counts = λ n last reader h.
        rw
          (
            read_from_buf_lem int_bits size_bits wide n last reader h,
            drop-drop reader.bufpos last reader.buf,
          )
          refl;
  }

  abbrev pub Room : ℕ → BufWriter → Type 0
  Room k writer =
      IsWithin int_bits size_bits writer.bufpos writer.buflen writer.buf
      × (writer.bufpos + k ≤ writer.buflen)

  pub write_to_buf-Room :
      (xs : List ℕ) (k : ℕ) (writer : BufWriter)
      → length xs ≤ k
      → Room k writer
      → let (size_sent, writer') = write_to_buf int_bits size_bits xs (length xs) false writer in
        (size_sent ≡ pos (length xs))
        × Room (k - length xs) writer'
        × (take writer'.bufpos writer'.buf ≡ take writer.bufpos writer.buf ++ xs)
  write_to_buf-Room xs k writer few (within, room) =
      let n : ℕ = length xs in
      let all : min n (writer.buflen - writer.bufpos) ≡ n = omega (arith, within) in
      let (same, behind) =
        written int_bits size_bits wide writer.buf xs writer.bufpos n (omega (arith, within))
          (omega arith) in
      rw (write_to_buf_lem int_bits size_bits wide xs false writer within, all)
        (
          refl,
          ((omega arith, omega (arith, same, within), within.2), omega arith),
          behind ∙ ap (λ ys. take writer.bufpos writer.buf ++ ys) (take-all n xs (omega arith)),
        )

  -- `write_to_buf` is a channel as the receiver needs it: it stores what its buffer has room for.
  abbrev pub write_to_buf-IsWriter : IsWriter (write_to_buf int_bits size_bits)
  write_to_buf-IsWriter = record {
    stored = λ writer. take writer.bufpos writer.buf;
    HasRoom = Room;
    fewer = λ j k writer few room. (room.0, omega (arith, room.1));
    takes =
        λ xs n k writer full few room. rw full (write_to_buf-Room xs k writer (omega arith) room).0;
    stays =
        λ xs n k writer full few room. rw full (write_to_buf-Room xs k writer (omega arith) room).1;
    keeps =
        λ xs n k writer full few room. rw full (write_to_buf-Room xs k writer (omega arith) room).2;
  }
