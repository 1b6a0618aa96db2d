-- ===== src/Stream/Fec.antt =====
-- `fec::encode`, `concat_and_insert` and `replace` of src/stream.cpp: how a frame becomes shards.
-- Sizes are of 64 bits and stay far below their bound. The Reed-Solomon library is a parameter.
mod ShardCounts
pub mod Units
pub mod Limit
pub mod Shards
pub mod Slices
pub mod Replace
mod Tests
use switchdesk_engine.Prelude.{
  ℕ, zero, suc, ◌+◌, ◌-◌, ◌*◌, ◌/◌, ◌%◌, Bool, true, false, not, ◌&&◌, Option, none, some, List, [],
  ◌∷◌, ◌++◌, ltb, ◌==◌, if◌then◌else◌, Bytes, length, take, drop,
}

-- So many parity shards of a list of data shards.
abbrev pub Rs : Type 0
Rs = ℕ → List Bytes → List Bytes

-- `fec_t`, with the shards themselves for the pointers to them.
pub record Fec : Type 0 where
  pub data_shards : ℕ
  pub nr_shards : ℕ
  pub percentage : ℕ
  pub blocksize : ℕ
  pub prefixsize : ℕ
  pub shards : List Bytes

pub record Counts : Type 0 where
  pub data_shards : ℕ
  pub parity_shards : ℕ
  pub percentage : ℕ

pub zeros : ℕ → Bytes
zeros zero = []
zeros (suc n) = 0 ∷ zeros n

-- `size / unit`, and one more where a part of a unit is left.
unfoldable pub units : ℕ → ℕ → ℕ
units size unit = size / unit + (if not (size % unit == 0) then 1 else 0)

raised_counts : ℕ → ℕ → Option Counts
raised_counts zero minparityshards = none
raised_counts (suc d) minparityshards = some (record {
  data_shards = suc d;
  parity_shards = minparityshards;
  percentage = 100 * minparityshards / suc d;
})

-- How many shards, and the percentage they are announced with. Nothing is a division by zero.
pub shard_counts : ℕ → ℕ → ℕ → ℕ → Option Counts
unfolding units raised_counts
shard_counts payload_size blocksize fecpercentage minparityshards =
    let pieces = units payload_size blocksize in
    let parity = (pieces * fecpercentage + 99) / 100 in
    if blocksize == 0
    then none
    else if ltb parity minparityshards && not (fecpercentage == 0)
    then raised_counts pieces minparityshards
    else some (record { data_shards = pieces; parity_shards = parity; percentage = fecpercentage })

-- The shards that point into the payload.
aligned_shards : ℕ → ℕ → Bytes → List Bytes
aligned_shards zero blocksize next = []
aligned_shards (suc n) blocksize next =
    take blocksize next ∷ aligned_shards n blocksize (drop blocksize next)

-- The last data shard, filled up with zeros, where the payload does not fill it.
padded_shard : Bool → ℕ → Bytes → List Bytes
unfolding zeros
padded_shard pad blocksize next = if pad then (next ++ zeros (blocksize - length next)) ∷ [] else []

pub data_shards_of : ℕ → Bytes → List Bytes
unfolding aligned_shards padded_shard
data_shards_of blocksize payload =
    let aligned = length payload / blocksize in
    aligned_shards aligned blocksize payload
    ++ padded_shard (not (length payload % blocksize == 0)) blocksize
        (drop (aligned * blocksize) payload)

pub encoded : Rs → ℕ → ℕ → Bytes → Counts → Fec
unfolding data_shards_of
encoded rs blocksize prefixsize payload counts =
    let sources = data_shards_of blocksize payload in
    record {
      data_shards = counts.data_shards;
      nr_shards = counts.data_shards + counts.parity_shards;
      percentage = counts.percentage;
      blocksize = blocksize;
      prefixsize = prefixsize;
      shards = sources ++ (if counts.percentage == 0 then [] else rs counts.parity_shards sources);
    }

pub encode_counted : Rs → ℕ → ℕ → Bytes → Option Counts → Option Fec
unfolding encoded
encode_counted rs blocksize prefixsize payload none = none
encode_counted rs blocksize prefixsize payload (some counts) =
    some (encoded rs blocksize prefixsize payload counts)

unfoldable pub encode : Rs → Bytes → ℕ → ℕ → ℕ → ℕ → Option Fec
unfolding encode_counted shard_counts
encode rs payload blocksize fecpercentage minparityshards prefixsize =
    encode_counted rs blocksize prefixsize payload
      (shard_counts (length payload) blocksize fecpercentage minparityshards)

-- One slice of `concat_and_insert`, and where `next` is after it. Past the end of the buffer it
-- goes on at the start of the second one.
pub copy_slice : ℕ → Bytes → Bytes → Bytes × Bytes
copy_slice slice_size next data2 =
    let copy_len = length next in
    if ltb copy_len slice_size
    then (next ++ take (slice_size - copy_len) data2, drop (slice_size - copy_len) data2)
    else (take slice_size next, drop slice_size next)

-- The size of the slice `x`: the last one ends with the data.
pub slice_at : ℕ → ℕ → ℕ → ℕ → ℕ
slice_at slice_size data_size elements x =
    if x == elements - 1 then data_size - x * slice_size else slice_size

-- The loop of `concat_and_insert`: so many more slices, the first of them with the number `x`.
pub concat_loop : ℕ → ℕ → ℕ → Bytes → ℕ → ℕ → ℕ → Bytes → Bytes
unfolding copy_slice slice_at zeros
concat_loop insert_size slice_size data_size data2 elements x zero next = []
concat_loop insert_size slice_size data_size data2 elements x (suc n) next =
    let slice = copy_slice (slice_at slice_size data_size elements x) next data2 in
    zeros insert_size
    ++ slice.0
    ++ concat_loop insert_size slice_size data_size data2 elements (suc x) n slice.1

unfoldable pub concat_and_insert : ℕ → ℕ → Bytes → Bytes → Bytes
unfolding concat_loop units
concat_and_insert insert_size slice_size data1 data2 =
    let data_size = length data1 + length data2 in
    let elements = units data_size slice_size in
    concat_loop insert_size slice_size data_size data2 elements 0 elements data1

unfoldable pub is_prefix : Bytes → Bytes → Bool
is_prefix [] bs = true
is_prefix (c ∷ cs) [] = false
is_prefix (c ∷ cs) (b ∷ bs) = c == b && is_prefix cs bs

-- `std::search`: what stands before the first occurrence, or nothing where that is at the end.
pub before_first : Bytes → Bytes → Option Bytes
unfolding is_prefix
before_first old [] = none
before_first old (b ∷ bs) =
    let later = before_first old bs in
    if is_prefix old (b ∷ bs)
    then some []
    else elim later [ none ↦ none | some before ↦ some (b ∷ before) ]

replaced_at : Bytes → Bytes → Bytes → Option Bytes → Bytes
replaced_at original old new none = original
replaced_at original old new (some before) =
    before ++ new ++ drop (length before + length old) original

-- Nothing where `reserve` throws, on a size that has wrapped around.
pub replace : Bytes → Bytes → Bytes → Option Bytes
unfolding replaced_at before_first
replace original old new =
    if ltb (length original + length new) (length old)
    then none
    else some (replaced_at original old new (before_first old original))
