-- ===== src/Gateway/Tcp/Tests.antt =====
-- Runs of tcp.go.
use nodehub.Base.{ℕ, ◌≢◌, Option, none, some, List, [], ◌∷◌, arith}
use nodehub.Codec.{Message}
use nodehub.Codec.Bounds.{IsMessage}
use nodehub.Gateway.Tcp.{panic, fuel, recv}
use nodehub.Gateway.Tcp.Recv.{recv-total}

abbrev pub message : Message
message = record { buffer = 0 ∷ 0 ∷ 0 ∷ 0 ∷ []; size = 0 }

pub message-IsMessage : IsMessage message
message-IsMessage = omega arith

-- A request is its payload's first byte.
abbrev pub first_byte : List ℕ → Option ℕ
first_byte [] = none
first_byte (b ∷ _) = some b

recv-total_example :
    ((recv first_byte 5 16 (0 ∷ 0 ∷ 0 ∷ 0 ∷ []) message).0 ≢ fuel)
    × ((recv first_byte 5 16 (0 ∷ 0 ∷ 0 ∷ 0 ∷ []) message).0 ≢ panic)
recv-total_example =
    recv-total first_byte 5 16 (0 ∷ 0 ∷ 0 ∷ 0 ∷ []) message message-IsMessage (omega arith)
