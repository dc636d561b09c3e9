-- ===== src/Modem/Buffers.antt =====
-- The two example channels in the comments of src/modem.h: `read_from_buf` hands out a buffer,
-- where the undeclared `buf_size` is read as `request_size`, and `write_to_buf` fills one. A
-- `memcpy` that left a buffer would be undefined; here it copies what there is.
pub mod Copy
pub mod Channels
pub mod Transfer
use native.Mathlib.Nat.{mod-eq_of_lt, add-mod_right, pow-le-pow_right}
use libmodem.Modem.{OutputChannel, InputChannel}
use libmodem.Prelude.{
  ℕ, ◌+◌, ◌-◌, ◌%◌, ◌^◌, ◌≤◌, ◌<◌, ◌≡◌, refl, ap, sym, ◌∙◌, ◌⊎◌, inl, inr, Bool, false, List, ◌++◌,
  length, take, drop, if◌then◌else◌, arith, min, length-append, length-take, length-drop,
  append_assoc,
}
use libmodem.Prelude.Int.{ℤ, pos, ltb_ℤ}
use libmodem.Xmodem.Buffer.{take-append, take-all}
use libmodem.Xmodem.Session.{to_signed, to_unsigned}

pub record BufReader : Type 0 where
  pub buf : List ℕ
  pub bufpos : ℕ
  pub buflen : ℕ

pub record BufWriter : Type 0 where
  pub buf : List ℕ
  pub bufpos : ℕ
  pub buflen : ℕ

module _ (int_bits size_bits : ℕ) where
  -- The difference of two `size_t`s as an `int`.
  abbrev pub space_left : ℕ → ℕ → ℤ
  space_left buflen bufpos =
      to_signed int_bits ((buflen + 2 ^ size_bits - bufpos) % 2 ^ size_bits % 2 ^ int_bits)

  abbrev pub smaller : ℤ → ℤ → ℤ
  smaller space size = if ltb_ℤ space size then space else size

  unfoldable pub read_from_buf : OutputChannel BufReader
  read_from_buf request_size last_sent_size reader =
      let bufpos = (reader.bufpos + last_sent_size) % 2 ^ size_bits in
      let size_read = smaller (space_left reader.buflen bufpos) (pos request_size) in
      record {
        result = size_read;
        bytes = take (to_unsigned size_bits size_read) (drop bufpos reader.buf);
        chan = record reader { bufpos = bufpos };
      }

  unfoldable pub write_to_buf : InputChannel BufWriter
  write_to_buf octets buf_size eof writer =
      let size_sent = smaller (space_left writer.buflen writer.bufpos) (pos buf_size) in
      let n = to_unsigned size_bits size_sent in
      (
        size_sent,
        record writer {
          buf =
              take writer.bufpos writer.buf
              ++ (take n octets ++ drop (writer.bufpos + n) writer.buf);
          bufpos = (writer.bufpos + n) % 2 ^ size_bits;
        },
      )
