-- ===== src/Stream/Fec/Tests.antt =====
-- Shards, slices and replacements of small byte strings.
use switchdesk_engine.Prelude.{some, [], ◌∷◌, ◌++◌, Bytes, length, ◌≡◌, refl, arith}
use switchdesk_engine.Stream.Fec.{
  Fec, zeros, units, raised_counts, shard_counts, aligned_shards, padded_shard, data_shards_of,
  encoded, encode_counted, encode, copy_slice, slice_at, concat_loop, concat_and_insert, is_prefix,
  before_first, replaced_at, replace,
}
use switchdesk_engine.Stream.Samples.{blank, length-blank}
use switchdesk_engine.Stream.Fec.Shards.{Encodes, encode_exact}
use switchdesk_engine.Stream.Fec.Slices.{spaced, concat_exact}

abbrev one_two_three : Bytes
one_two_three = 1 ∷ 2 ∷ 3 ∷ []

abbrev four_five : Bytes
four_five = 4 ∷ 5 ∷ []

abbrev five_bytes : Bytes
five_bytes = 1 ∷ 2 ∷ 3 ∷ 4 ∷ 5 ∷ []

abbrev five_fec : Fec
five_fec = record {
  data_shards = 3;
  nr_shards = 5;
  percentage = 50;
  blocksize = 2;
  prefixsize = 0;
  shards = (1 ∷ 2 ∷ []) ∷ (3 ∷ 4 ∷ []) ∷ (5 ∷ 0 ∷ []) ∷ [] ∷ [] ∷ [];
}

encode_five : encode blank five_bytes 2 50 1 0 ≡ some five_fec
unfolding encode encode_counted encoded shard_counts units raised_counts data_shards_of
    aligned_shards padded_shard zeros
encode_five = refl

encode_exact_example : Encodes five_bytes 2 50 1 five_fec
encode_exact_example =
    encode_exact blank length-blank five_bytes 2 50 1 0 five_fec (omega arith) encode_five

-- A minimum that the percentage does not reach raises it past the 8 bits of its field.
raised_past_its_field :
    shard_counts 2 2 20 3 ≡ some (record { data_shards = 1; parity_shards = 3; percentage = 300 })
unfolding shard_counts units raised_counts
raised_past_its_field = refl

-- The tests of tests/unit/test_stream.cpp.
small_stride :
    concat_and_insert 1 1 (97 ∷ 98 ∷ []) (99 ∷ 100 ∷ 101 ∷ [])
    ≡ 0 ∷ 97 ∷ 0 ∷ 98 ∷ 0 ∷ 99 ∷ 0 ∷ 100 ∷ 0 ∷ 101 ∷ []
unfolding concat_and_insert concat_loop copy_slice slice_at units zeros
small_stride = refl

large_stride :
    concat_and_insert 1 6 (97 ∷ 98 ∷ []) (99 ∷ 100 ∷ 101 ∷ []) ≡ 0 ∷ 97 ∷ 98 ∷ 99 ∷ 100 ∷ 101 ∷ []
unfolding concat_and_insert concat_loop copy_slice slice_at units zeros
large_stride = refl

concat_exact_example :
    concat_and_insert 1 2 one_two_three four_five
    ≡ spaced 1 2 (units (length (one_two_three ++ four_five)) 2) (one_two_three ++ four_five)
concat_exact_example = concat_exact 1 2 one_two_three four_five (omega arith)

replace_five : replace five_bytes (3 ∷ 4 ∷ []) (9 ∷ []) ≡ some (1 ∷ 2 ∷ 9 ∷ 5 ∷ [])
unfolding replace replaced_at before_first is_prefix
replace_five = refl
