-- ===== src/Codec/RoundTrip.antt =====
-- What SendBytes writes, ReadMessage reads back.
use nodehub.Base.{
  ℕ, ◌^◌, ◌%◌, ◌≤◌, ◌<◌, ◌≡◌, refl, none, some, List, [], ◌∷◌, ◌++◌, nat_eq, length, drop,
  length-append, take-append, drop-append, arith,
}
use nodehub.Codec.Bytes.{put_uint32, uint32-put_uint32}
use nodehub.Codec.Bounds.{IsMessage}
use nodehub.Codec.{
  size_len, send_bytes, Message, bytes, Read, too_long, data_frame, grow, read_data, read_sized,
  read_message,
}

-- The buffer when the size frame is read.
header : List ℕ → Message → Message
header payload msg = record {
  buffer = put_uint32 (length payload) ++ drop size_len msg.buffer;
  size = length payload;
}

-- ReadMessage on a frame is the second half of it on the payload.
read_message-send_bytes-header :
    (limit : ℕ) (payload rest : List ℕ) (msg : Message)
    → IsMessage msg
    → length payload < 2 ^ 32
    → read_message limit (send_bytes payload ++ rest) msg
      ≡ some (read_sized limit (payload ++ rest) (header payload msg))
unfolding read_message send_bytes header put_uint32
read_message-send_bytes-header limit payload rest msg h k =
    let fits : length payload % 2 ^ 32 ≡ length payload = omega arith in
    rw fits (ground (arith, uint32-put_uint32 (length payload) []))

-- The payload is read into the message.
read_sized-append :
    (limit : ℕ) (payload rest : List ℕ) (m : Message)
    → m.size ≡ length payload
    → length payload ≤ limit
    → let r = read_sized limit (payload ++ rest) m in
      (r.error ≡ none)
      × (bytes r.message ≡ payload)
      × (r.rest ≡ rest)
      × (r.message.size ≡ length payload)
unfolding read_sized read_data bytes
read_sized-append limit [] rest m e l =
    (ground arith, ground (arith, e), ground arith, ground arith)
read_sized-append limit (x ∷ p) rest m e l =
    let payload = x ∷ p in
    ground (
      arith,
      length-append payload rest,
      take-append payload rest,
      drop-append payload rest,
      take-append payload (drop m.size (grow m.size m.buffer)),
    )

-- A frame of a payload within the limit and shorter than 2^32 bytes is read back whole, into a
-- message that can be read into: no error, the payload is the message, and the stream is left
-- behind the frame.
pub read_message-send_bytes :
    (limit : ℕ) (payload rest : List ℕ) (msg : Message)
    → IsMessage msg
    → length payload < 2 ^ 32
    → length payload ≤ limit
    → (r : Read) × (read_message limit (send_bytes payload ++ rest) msg ≡ some r)
      × (r.error ≡ none)
      × (bytes r.message ≡ payload)
      × (r.rest ≡ rest)
      × (r.message.size ≡ length payload)
unfolding header
read_message-send_bytes limit payload rest msg h k l =
    let m = header payload msg in
    let (a, b, c, d) = read_sized-append limit payload rest m refl l in
    (
      read_sized limit (payload ++ rest) m,
      read_message-send_bytes-header limit payload rest msg h k,
      a,
      b,
      c,
      d,
    )

-- A frame of a payload over the limit and shorter than 2^32 bytes, read into a message that can be
-- read into, is refused with its length, and none of the payload is read.
pub read_message-too_long :
    (limit : ℕ) (payload rest : List ℕ) (msg : Message)
    → IsMessage msg
    → length payload < 2 ^ 32
    → limit < length payload
    → (r : Read) × (read_message limit (send_bytes payload ++ rest) msg ≡ some r)
      × (r.error ≡ some (too_long (length payload)))
      × (r.rest ≡ payload ++ rest)
unfolding read_sized header
read_message-too_long limit payload rest msg h k l = (
  read_sized limit (payload ++ rest) (header payload msg),
  read_message-send_bytes-header limit payload rest msg h k,
  ground arith,
  ground arith,
)

-- A stream that ends inside the payload of a frame within the limit and shorter than 2^32 bytes,
-- read into a message that can be read into, gives the error of the data frame, at the stream's
-- end.
pub read_message-truncated :
    (limit size : ℕ) (part : List ℕ) (msg : Message)
    → IsMessage msg
    → size < 2 ^ 32
    → size ≤ limit
    → length part < size
    → (r : Read) × (read_message limit (put_uint32 size ++ part) msg ≡ some r)
      × (r.error ≡ some data_frame)
      × (r.rest ≡ [])
unfolding read_message read_sized read_data put_uint32
read_message-truncated limit size part msg h k l short = (
  read_sized limit part
      (record { buffer = put_uint32 size ++ drop size_len msg.buffer; size = size }),
  ground (arith, uint32-put_uint32 size []),
  ground arith,
  ground arith,
)
