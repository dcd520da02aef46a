-- ===== src/Codec/Pool.antt =====
-- messagePool: a channel of 1024 messages.
use nodehub.Base.{
  ℕ, zero, ◌≤◌, ◌≡◌, refl, inl, inr, List, [], ◌∷◌, ◌++◌, ltb, if◌then◌else◌, length, All,
  length-append, length-replicate, arith, Bool-cases,
}
use nodehub.Codec.Bounds.{IsMessage}
use nodehub.Codec.{Message, reset, new_message, new_message_size}

pub record MessagePool : Type 0 where
  pub pool : List Message

abbrev pub pool_size : ℕ
pool_size = 1024

unfoldable pub get : MessagePool → MessagePool × Message
get p = elim p.pool [ [] ↦ (p, new_message) | msg ∷ pool ↦ (record { pool = pool }, reset msg) ]

-- A full pool drops the message.
unfoldable pub put : MessagePool → Message → MessagePool
put p msg = if ltb (length p.pool) pool_size then record { pool = p.pool ++ msg ∷ [] } else p

pub record IsPool (p : MessagePool) : Type 0 where
  pub usable : All IsMessage p.pool
  pub bounded : length p.pool ≤ pool_size

All-snoc :
    (msgs : List Message) (msg : Message)
    → All IsMessage msgs
    → IsMessage msg
    → All IsMessage (msgs ++ msg ∷ [])
All-snoc [] msg h k = (k, tt)
All-snoc (m ∷ msgs) msg h k = (h.0, All-snoc msgs msg h.1 k)

new_message-IsMessage : IsMessage new_message
unfolding new_message
new_message-IsMessage = omega (arith, length-replicate new_message_size zero)

get_from-IsPool :
    (pool : List Message)
    → IsPool (record { pool = pool })
    → let (q, msg) = get (record { pool = pool }) in IsPool q × IsMessage msg × (msg.size ≡ 0)
unfolding get reset new_message
get_from-IsPool [] h = (h, new_message-IsMessage, refl)
get_from-IsPool (m ∷ pool) h =
    (record { usable = h.usable.1; bounded = omega (arith, h.bounded) }, h.usable.0, refl)

-- A pool within its capacity, whose messages can be read into, gives a message that is empty and
-- can be read into, and is such a pool afterwards.
pub get-IsPool :
    (p : MessagePool) → IsPool p → let (q, msg) = get p in IsPool q × IsMessage msg × (msg.size ≡ 0)
get-IsPool p h = get_from-IsPool p.pool h

-- A message that can be read into, put back into a pool within its capacity whose messages can be
-- read into, leaves such a pool.
pub put-IsPool : (p : MessagePool) (msg : Message) → IsPool p → IsMessage msg → IsPool (put p msg)
unfolding put
put-IsPool p msg h m = elim (Bool-cases (ltb (length p.pool) pool_size)) [
  | inl room ↦ rw room (record {
    usable = All-snoc p.pool msg h.usable m;
    bounded = ground (arith, length-append p.pool (msg ∷ []));
  })
  | inr full ↦ rw full h
]
