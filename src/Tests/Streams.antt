-- ===== src/Tests/Streams.antt =====
-- The bit streams and the message types at concrete inputs.
use wargame.Prelude.{◌≡◌, ◌≤◌, ◌+◌, ◌-◌, refl, true, [], ◌∷◌, some, none, arith, ◌⊎◌, ◌↔◌}
use wargame.Bus.Message.{strike_plan, type_name, parse_type_name, parse_type_name-type_name}
use wargame.Vmf.BitStream.{
  BitWriter, BitReader, new_writer, new_reader, write, overwrite, remaining_bits_are_zero,
}
use wargame.Vmf.BitStream.Writer.{Stored, Fits, Written, new_writer-IsWriter, write_lem}
use wargame.Vmf.BitStream.Overwrite.{Overwritten, overwrite_lem}
use wargame.Vmf.BitStream.Reader.{remaining_bits_are_zero_iff}
use wargame.Vmf.BitStream.RoundTrip.{
  Layout, write_all, read_all, values, widths, write_all-read_all,
}

parse_type_name-type_name_example : parse_type_name (type_name strike_plan) ≡ some strike_plan
parse_type_name-type_name_example = parse_type_name-type_name strike_plan

abbrev three_fields : Layout
three_fields = (5, 3) ∷ (1000, 12) ∷ (1, 4) ∷ []

-- 101 0011 1110 1000 0001, and five bits of padding.
abbrev three_written : BitWriter
three_written = record { bytes = 167 ∷ 208 ∷ 32 ∷ []; bit_length = 19 }

three_writes : write_all three_fields new_writer ≡ some three_written
unfolding write_all write new_writer
three_writes = refl

write_all-read_all_example :
    read_all (widths three_fields) (new_reader (167 ∷ 208 ∷ 32 ∷ []) 19)
    ≡ some
        (values three_fields, record { bytes = 167 ∷ 208 ∷ 32 ∷ []; bit_length = 19; offset = 19 })
write_all-read_all_example =
    write_all-read_all three_fields three_written (omega arith, (omega arith, (omega arith, tt)))
      three_writes

write_lem_example :
    (Fits 5 3 × ((w' : BitWriter) × (write 5 3 new_writer ≡ some w') × Written 5 3 new_writer w'))
    ⊎ (¬ Fits 5 3 × (write 5 3 new_writer ≡ none))
write_lem_example = write_lem 5 3 new_writer (omega arith) new_writer-IsWriter

overwrite_lem_example :
    ((Fits 5 3 × (0 + 3 ≤ new_writer.bit_length))
      × ((w' : BitWriter) × (overwrite 0 5 3 new_writer ≡ some w')
          × Overwritten 0 5 3 new_writer w'))
    ⊎ (¬ (Fits 5 3 × (0 + 3 ≤ new_writer.bit_length)) × (overwrite 0 5 3 new_writer ≡ none))
overwrite_lem_example = overwrite_lem 0 5 3 new_writer (omega arith) new_writer-IsWriter

abbrev padded_reader : BitReader
padded_reader = record { bytes = 167 ∷ 208 ∷ 32 ∷ []; bit_length = 24; offset = 19 }

remaining_bits_are_zero_iff_example :
    (remaining_bits_are_zero padded_reader ≡ true) ↔ Stored 0 (167 ∷ 208 ∷ 32 ∷ []) 19 (24 - 19)
remaining_bits_are_zero_iff_example = remaining_bits_are_zero_iff padded_reader
