-- ===== src/Codec/Tests.antt =====
-- Runs of message.go.
use nodehub.Base.{ℕ, ◌≤◌, ◌≡◌, refl, ◌⊎◌, some, List, [], ◌∷◌, length, arith}
use nodehub.Codec.{Message, Read, send_bytes, read_message}
use nodehub.Codec.Bytes.{put_uint32}
use nodehub.Codec.Bounds.{IsMessage, read_message-IsMessage}
use nodehub.Codec.Pool.{MessagePool, IsPool}

-- A small message that was read before.
abbrev used : Message
used = record { buffer = 9 ∷ 8 ∷ 7 ∷ 6 ∷ 5 ∷ []; size = 1 }

abbrev payload : List ℕ
payload = 1 ∷ 2 ∷ 3 ∷ 4 ∷ 5 ∷ 6 ∷ []

abbrev behind : List ℕ
behind = 0 ∷ 0 ∷ []

used-IsMessage : IsMessage used
used-IsMessage = omega arith

read_message-IsMessage_example :
    (r : Read) × (read_message 8 (0 ∷ 0 ∷ 0 ∷ 7 ∷ payload) used ≡ some r)
    × IsMessage r.message
    × ((length r.message.buffer ≤ 8) ⊎ (length r.message.buffer ≤ 5))
read_message-IsMessage_example =
    read_message-IsMessage 8 (0 ∷ 0 ∷ 0 ∷ 7 ∷ payload) used used-IsMessage

abbrev pool_of_one : MessagePool
pool_of_one = record { pool = used ∷ [] }

pool_of_one-IsPool : IsPool pool_of_one
pool_of_one-IsPool = record { usable = (used-IsMessage, tt); bounded = omega arith }

-- A frame of two bytes, byte by byte.
send_bytes_run : send_bytes (7 ∷ 8 ∷ []) ≡ 0 ∷ 0 ∷ 0 ∷ 2 ∷ 7 ∷ 8 ∷ []
unfolding send_bytes put_uint32
send_bytes_run = refl
