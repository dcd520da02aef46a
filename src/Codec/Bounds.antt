-- ===== src/Codec/Bounds.antt =====
-- ReadMessage on every stream.
use nodehub.Base.{
  ℕ, zero, suc, ◌+◌, ◌-◌, ◌≤◌, ◌<◌, ◌≡◌, refl, ap, ◌⊎◌, inl, inr, none, some, List, [], ◌∷◌, ◌++◌,
  ltb, nat_eq, length, take, drop, replicate, length-append, length-replicate, length-drop, arith,
  Bool-cases,
}
use nodehub.Codec.Bytes.{uint32}
use nodehub.Codec.{
  size_len, Message, Read, size_frame, partly_read, grow, read_data, read_sized, read_message,
}

-- A message that ReadMessage can be given.
abbrev pub IsMessage : Message → Type 0
IsMessage msg = size_len ≤ length msg.buffer

pub length-take : (n : ℕ) (xs : List ℕ) → n ≤ length xs → length (take n xs) ≡ n
length-take zero xs h = refl
length-take (suc n) [] h = absurd (omega arith)
length-take (suc n) (x ∷ xs) h = ap suc (length-take n xs (omega arith))

length-overwrite :
    (n : ℕ) (stream buffer : List ℕ)
    → n ≤ length stream
    → n ≤ length buffer
    → length (take n stream ++ drop n buffer) ≡ length buffer
length-overwrite n stream buffer h k = omega (
  arith,
  length-append (take n stream) (drop n buffer),
  length-take n stream,
  length-drop n buffer,
)

length-partly_read :
    (n : ℕ) (stream buffer : List ℕ)
    → length stream < n
    → n ≤ length buffer
    → length (partly_read stream buffer) ≡ length buffer
unfolding partly_read
length-partly_read n stream buffer h k =
    omega (
      arith,
      length-append stream (drop (length stream) buffer),
      length-drop (length stream) buffer,
    )

length-grow :
    (n : ℕ) (buffer : List ℕ)
    → (n ≤ length (grow n buffer))
      × (length buffer ≤ length (grow n buffer))
      × ((length (grow n buffer) ≤ n) ⊎ (length (grow n buffer) ≤ length buffer))
unfolding grow
length-grow n buffer = ground (
  arith,
  length-append buffer (replicate (n - length buffer) zero),
  length-replicate (n - length buffer) zero,
)

length-read_data :
    (stream : List ℕ) (msg : Message)
    → msg.size ≤ length msg.buffer
    → length (read_data stream msg).message.buffer ≡ length msg.buffer
unfolding read_data
length-read_data stream msg h = ground (
  arith,
  length-overwrite msg.size stream msg.buffer,
  length-partly_read msg.size stream msg.buffer,
)

length-read_sized :
    (limit : ℕ) (stream : List ℕ) (msg : Message)
    → let n = length (read_sized limit stream msg).message.buffer in
      (length msg.buffer ≤ n) × ((n ≤ limit) ⊎ (n ≤ length msg.buffer))
unfolding read_sized
length-read_sized limit stream msg = ground (
  arith,
  length-grow msg.size msg.buffer,
  length-read_data stream (record msg { buffer = grow msg.size msg.buffer }),
)

-- ReadMessage does not panic on a message that can be given to it, the message it leaves can be
-- given to it again, and its buffer is not asked to grow past the limit.
pub read_message-IsMessage :
    (limit : ℕ) (stream : List ℕ) (msg : Message)
    → IsMessage msg
    → (r : Read) × (read_message limit stream msg ≡ some r)
      × IsMessage r.message
      × ((length r.message.buffer ≤ limit) ⊎ (length r.message.buffer ≤ length msg.buffer))
unfolding read_message
read_message-IsMessage limit stream msg h = elim (Bool-cases (ltb (length stream) size_len)) [
  | inl short ↦ (
    record {
      message = record msg { buffer = partly_read stream msg.buffer };
      rest = [];
      error = some size_frame;
    },
    ground arith,
    ground (arith, length-partly_read 4 stream msg.buffer),
    ground (arith, length-partly_read 4 stream msg.buffer),
  )
  | inr enough ↦
      let sized : Message = record {
        buffer = take size_len stream ++ drop size_len msg.buffer;
        size = uint32 (take size_len stream);
      } in
      (
        read_sized limit (drop size_len stream) sized,
        ground arith,
        ground (
          arith,
          length-read_sized limit (drop size_len stream) sized,
          length-overwrite 4 stream msg.buffer,
        ),
        ground (
          arith,
          length-read_sized limit (drop size_len stream) sized,
          length-overwrite 4 stream msg.buffer,
        ),
      )
]

length-read_sized_rest :
    (limit : ℕ) (stream : List ℕ) (msg : Message)
    → length (read_sized limit stream msg).rest ≤ length stream
unfolding read_sized read_data
length-read_sized_rest limit stream msg = ground (arith, length-drop msg.size stream)

-- A message that is read without an error takes its size frame off the stream at least.
pub read_message-consumes :
    (limit : ℕ) (stream : List ℕ) (msg : Message) (r : Read)
    → read_message limit stream msg ≡ some r
    → r.error ≡ none
    → length r.rest + size_len ≤ length stream
unfolding read_message
read_message-consumes limit stream msg r e ok = ground (
  arith,
  length-drop 4 stream,
  length-read_sized_rest limit (drop size_len stream) (record {
    buffer = take size_len stream ++ drop size_len msg.buffer;
    size = uint32 (take size_len stream);
  }),
)
