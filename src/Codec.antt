-- ===== src/Codec.antt =====
-- internal/codec/message.go: messages on a byte stream, each behind a 4-byte big-endian length.
pub mod Bytes
pub mod Bounds
pub mod RoundTrip
pub mod Pool
pub mod Tests
use nodehub.Base.{
  ℕ, zero, suc, ◌+◌, ◌-◌, ◌*◌, ◌/◌, ◌%◌, ◌^◌, Option, none, some, List, [], ◌∷◌, ◌++◌, Bool, true,
  false, ltb, leb, ◌==◌, nat_eq, if◌then◌else◌, length, take, drop, replicate, Outcome, ok, err,
  panic, ◌>>=◌,
}
use Bytes.{put_uint32, uint32}

-- `SizeLen`
abbrev pub size_len : ℕ
size_len = 4

-- `MaxMessageSize` before SetMaxMessageSize.
abbrev pub default_max_message_size : ℕ
default_max_message_size = 64 * 1024

abbrev pub new_message_size : ℕ
new_message_size = 4 * 1024

-- `uint32(len(data))` wraps; the buffer is what `sender` is given.
unfoldable pub send_bytes : List ℕ → List ℕ
unfolding put_uint32
send_bytes payload = put_uint32 (length payload % 2 ^ 32) ++ payload

-- `buffer` holds the bytes of the slice up to its capacity: `msg.data[:n]` reads past the length
-- of a slice, up to its capacity.
pub record Message : Type 0 where
  pub buffer : List ℕ
  pub size : ℕ

unfoldable pub bytes : Message → List ℕ
bytes msg = take msg.size msg.buffer

unfoldable pub reset : Message → Message
reset msg = record msg { size = 0 }

unfoldable pub new_message : Message
new_message = record { buffer = replicate new_message_size 0; size = 0 }

-- `size_frame` and `data_frame` wrap the error of `io.ReadFull`.
pub data ReadError : Type 0 where
  size_frame : ReadError
  too_long : ℕ → ReadError
  data_frame : ReadError

-- A buffer that a short read has written to.
unfoldable pub partly_read : List ℕ → List ℕ → List ℕ
partly_read stream buffer = stream ++ drop (length stream) buffer

-- `append(msg.data[:c], make([]byte, s-c)...)`: the capacity that is asked for. Go may give more,
-- of which nothing is read before it is written.
unfoldable pub grow : ℕ → List ℕ → List ℕ
grow n buffer = if ltb (length buffer) n then buffer ++ replicate (n - length buffer) 0 else buffer

-- What ReadMessage leaves: the message, the unread stream and the error.
pub record Read : Type 0 where
  pub message : Message
  pub rest : List ℕ
  pub error : Option ReadError

-- `io.ReadFull(r, msg.data[:msg.size])`
unfoldable pub read_data : List ℕ → Message → Read
read_data stream msg =
    if ltb (length stream) msg.size
    then record {
      message = record msg { buffer = partly_read stream msg.buffer };
      rest = [];
      error = some data_frame;
    }
    else record {
      message = record msg { buffer = take msg.size stream ++ drop msg.size msg.buffer };
      rest = drop msg.size stream;
      error = none;
    }

-- The size is in `msg.size`.
unfoldable pub read_sized : ℕ → List ℕ → Message → Read
read_sized limit stream msg =
    if msg.size == 0
    then record { message = msg; rest = stream; error = none }
    else if ltb limit msg.size
    then record { message = msg; rest = stream; error = some (too_long msg.size) }
    else read_data stream (record msg { buffer = grow msg.size msg.buffer })

-- `none` is a panic: `msg.data[:SizeLen]` past the capacity.
unfoldable pub read_message : ℕ → List ℕ → Message → Option Read
read_message limit stream msg =
    if ltb (length msg.buffer) size_len
    then none
    else if ltb (length stream) size_len
    then some (record {
      message = record msg { buffer = partly_read stream msg.buffer };
      rest = [];
      error = some size_frame;
    })
    else some (
        read_sized limit (drop size_len stream) (record {
          buffer = take size_len stream ++ drop size_len msg.buffer;
          size = uint32 (take size_len stream);
        }))
