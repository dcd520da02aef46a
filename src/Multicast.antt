-- ===== src/Multicast.antt =====
-- multicast/bus.go: what may be published, and how the messages of a stream are handed to their
-- worker. The workers of handleRequestStream in component/gateway/proxy.go are the same, with
-- other numbers: see Gateway/Streams.
pub mod Fifo
pub mod Order
pub mod Published
pub mod Tests
use nodehub.Base.{
  ◌≡◌, ℕ, zero, suc, ◌+◌, ◌*◌, ◌-◌, String, Option, none, some, List, [], ◌∷◌, ◌++◌, Bool, true,
  false, not, ◌&&◌, ◌||◌, ◌==◌, nat_eq, string_eq, if◌then◌else◌, ltb, leb, length, Outcome, ok,
  err,
}
use nodehub.Base.Int.{ℤ, pos, int_eq}
use nodehub.Base.Map
use nodehub.Base.Map.{Map}

-- `active` is the time of the last send to the channel, in seconds.
pub record Worker {ℓ} (M : Type ℓ) : Type ℓ where
  pub queue : List M
  pub active : ℕ

-- `workers` is the map of the goroutine that hears the queue; `retired` are the workers whose
-- channel was closed by the ticker, with what is left in it. A worker whose goroutine takes a
-- message calls the handler: `started` lists these calls, `received` what was sent to workers,
-- and `unordered` the messages without a stream that were submitted, each in order.
pub record Dispatcher {ℓ} (M : Type ℓ) : Type ℓ where
  pub workers : Map String (Worker M)
  pub retired : List (String × List M)
  pub received : List M
  pub started : List M
  pub unordered : List M
  pub stopped : Bool

unfoldable pub new_dispatcher {ℓ} : {M : Type ℓ} → Dispatcher M
new_dispatcher = record {
  workers = [];
  retired = [];
  received = [];
  started = [];
  unordered = [];
  stopped = false;
}

-- What happens, in any order: a message is heard at a time, and whether a task is accepted; the
-- ticker; the worker of a stream takes a message; a retired worker does; the context ends or the
-- queue is closed.
pub data Event {ℓ} (M : Type ℓ) : Type ℓ where
  hears : ℕ → Bool → M → Event M
  ticks : ℕ → Event M
  takes : String → Event M
  drains : ℕ → Event M
  stops : Event M

-- The workers of which the ticker keeps, and those that it retires.
unfoldable pub is_idle {ℓ} : {M : Type ℓ} → ℕ → ℕ → Worker M → Bool
is_idle limit now w = ltb (w.active + limit) now

unfoldable pub keep_active {ℓ} :
    {M : Type ℓ} → ℕ → ℕ → Map String (Worker M) → Map String (Worker M)
keep_active limit now [] = []
keep_active limit now ((k, w) ∷ workers) =
    let rest = keep_active limit now workers in if is_idle limit now w then rest else (k, w) ∷ rest

unfoldable pub retire_idle {ℓ} :
    {M : Type ℓ} → ℕ → ℕ → Map String (Worker M) → List (String × List M)
retire_idle limit now [] = []
retire_idle limit now ((k, w) ∷ workers) =
    let rest = retire_idle limit now workers in
    if is_idle limit now w then (k, w.queue) ∷ rest else rest

-- The message that the retired worker at a place takes, and what is left.
unfoldable pub drain {ℓ} :
    {M : Type ℓ} → ℕ → List (String × List M) → Option (M × List (String × List M))
drain n [] = none
drain zero ((k, []) ∷ retired) = none
drain zero ((k, m ∷ queue) ∷ retired) = some (m, (k, queue) ∷ retired)
drain (suc n) (r ∷ retired) = elim (drain n retired) [
  | none ↦ none
  | some (m, rest) ↦ some (m, r ∷ rest)
]

-- Parameters: the stream of a message, the capacity of a channel, and how long a worker may idle.
module _ {ℓ} {M : Type ℓ} (stream : M → String) (cap limit : ℕ) where
  unfoldable pub worker_of : Map String (Worker M) → String → Worker M
  worker_of workers k = elim (Map.load workers k) [
    | some w ↦ w
    | none ↦ record { queue = []; active = 0 }
  ]

  -- While the channel is full, the send waits, and nothing else is heard.
  unfoldable pub send : ℕ → M → Dispatcher M → Dispatcher M
  send now m d =
      let w = worker_of d.workers (stream m) in
      if ltb (length w.queue) cap
      then record d {
        workers =
            Map.store d.workers (stream m) (record { queue = w.queue ++ (m ∷ []); active = now });
        received = d.received ++ (m ∷ []);
      }
      else d

  unfoldable pub hear : ℕ → Bool → M → Dispatcher M → Dispatcher M
  hear now accepts m d =
      if stream m == ""
      then (if accepts then record d { unordered = d.unordered ++ (m ∷ []) } else d)
      else send now m d

  -- The loop of the goroutine of a worker.
  unfoldable pub take_one : String → Dispatcher M → Worker M → Dispatcher M
  take_one k d w = elim w.queue [
    | [] ↦ d
    | m ∷ queue ↦ record d {
      workers = Map.store d.workers k (record w { queue = queue });
      started = d.started ++ (m ∷ []);
    }
  ]

  -- An event that cannot happen in the state changes nothing.
  unfoldable pub step : Dispatcher M → Event M → Dispatcher M
  step d (hears now accepts m) = if d.stopped then d else hear now accepts m d
  step d (ticks now) = if d.stopped then d else record d {
    workers = keep_active limit now d.workers;
    retired = retire_idle limit now d.workers ++ d.retired;
  }
  step d (takes k) = elim (Map.load d.workers k) [ some w ↦ take_one k d w | none ↦ d ]
  step d (drains n) = elim (drain n d.retired) [
    | some (m, retired) ↦ record d { retired = retired; started = d.started ++ (m ∷ []) }
    | none ↦ d
  ]
  step d stops = record d { stopped = true }

  unfoldable pub run : Dispatcher M → List (Event M) → Dispatcher M
  run d [] = d
  run d (ev ∷ evs) = run (step d ev) evs

-- `nh.Multicast`, the parts that are looked at; the time is `none` where it is not set.
pub record Message : Type 0 where
  pub receiver : List String
  pub to_everyone : Bool
  pub stream : String
  pub time : Option ℕ
  pub service_code : ℤ
  pub code : ℤ
  pub payload : List ℕ

pub data PublishError : Type 0 where
  code_empty receiver_empty not_encoded not_queued : PublishError

abbrev pub bus_capacity : ℕ
bus_capacity = 100

abbrev pub bus_idle : ℕ
bus_idle = 5 * 60

unfoldable pub stamped : ℕ → Message → Message
stamped now m = elim m.time [ none ↦ record m { time = some now } | some _ ↦ m ]

-- Parameters: `proto.Marshal`, and whether the queue takes a payload.
module _ (marshal : Message → Option (List ℕ)) (enqueues : List ℕ → Bool) where
  unfoldable pub enqueue : Message → Outcome PublishError (List ℕ)
  enqueue m = elim (marshal m) [
    | none ↦ err not_encoded
    | some bytes ↦ if enqueues bytes then ok bytes else err not_queued
  ]

  -- The payload that is given to the queue.
  unfoldable pub publish : ℕ → Message → Outcome PublishError (List ℕ)
  publish now m =
      if m.service_code == pos 0 || m.code == pos 0
      then err code_empty
      else if leb (length m.receiver) 0 && not m.to_everyone
      then err receiver_empty
      else enqueue (stamped now m)

-- A payload of the queue: one that `proto.Unmarshal` refuses is passed over.
module _ (unmarshal : List ℕ → Option Message) where
  unfoldable pub hear_payload : ℕ → Bool → List ℕ → Dispatcher Message → Dispatcher Message
  hear_payload now accepts bytes d = elim (unmarshal bytes) [
    | none ↦ d
    | some m ↦ step (λ m. m.stream) bus_capacity bus_idle d (hears now accepts m)
  ]
