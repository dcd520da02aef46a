-- ===== src/Multicast/Tests.antt =====
-- Two messages of a stream, one of which is handled before the ticker ticks.
use nodehub.Base.{
  ◌≡◌, ◌≢◌, refl, ◌<◌, ℕ, String, Option, none, some, List, [], ◌∷◌, ◌++◌, Bool, true, false, ◌==◌,
  string_eq, if◌then◌else◌, length, str_eq_iff, arith, ok,
}
use nodehub.Base.Int.{ℤ, pos, negsuc, int_eq}
use nodehub.Base.Map
use nodehub.Multicast.{
  Dispatcher, new_dispatcher, Event, hears, ticks, takes, is_idle, keep_active, retire_idle,
  worker_of, send, hear, take_one, step, run, Message, bus_capacity, bus_idle, stamped, enqueue,
  publish, hear_payload,
}
use nodehub.Multicast.Fifo.{InOrder}
use nodehub.Multicast.Order.{QuietRun, run-InOrder}
use nodehub.Multicast.Published.{publish-hear_payload}

abbrev stream : ℕ → String
stream n = "a"

abbrev events : List (Event ℕ)
events = hears 1 true 7 ∷ hears 2 true 8 ∷ takes "a" ∷ ticks 60 ∷ takes "a" ∷ ticks 400 ∷ []

events-Quiet : QuietRun stream bus_capacity bus_idle new_dispatcher events
unfolding QuietRun new_dispatcher step hear send take_one worker_of keep_active retire_idle is_idle
    Map.load Map.store
events-Quiet = (tt, (tt, (tt, (tt, (tt, ((refl, tt), tt))))))

run-InOrder_example :
    InOrder stream bus_capacity bus_idle (run stream bus_capacity bus_idle new_dispatcher events)
run-InOrder_example = run-InOrder stream bus_capacity bus_idle events events-Quiet

-- The ticker retires a worker with a message left: the next one of its stream is taken first.
abbrev busy : List (Event ℕ)
busy = hears 1 true 7 ∷ ticks 400 ∷ hears 401 true 8 ∷ takes "a" ∷ []

run-busy : (run stream bus_capacity bus_idle new_dispatcher busy).started ≡ 8 ∷ []
unfolding run new_dispatcher step hear send take_one worker_of keep_active retire_idle is_idle
    Map.load Map.store
run-busy = refl

-- A code for the messages to everyone in one stream.
abbrev encode : List String → Bool → String → Option ℕ → ℤ → ℤ → List ℕ → Option (List ℕ)
encode [] true s (some t) (pos c) (pos k) p = if s == "room" then some (t ∷ c ∷ k ∷ p) else none
encode _ _ _ _ _ _ _ = none

abbrev marshal : Message → Option (List ℕ)
marshal m = encode m.receiver m.to_everyone m.stream m.time m.service_code m.code m.payload

abbrev unmarshal : List ℕ → Option Message
unmarshal (t ∷ c ∷ k ∷ p) = some (record {
  receiver = [];
  to_everyone = true;
  stream = "room";
  time = some t;
  service_code = pos c;
  code = pos k;
  payload = p;
})
unmarshal _ = none

decode :
    (r : List String) (e : Bool) (s : String) (t : Option ℕ) (c k : ℤ) (p b : List ℕ)
    → encode r e s t c k p ≡ some b
    → unmarshal b
      ≡ some (record {
        receiver = r;
        to_everyone = e;
        stream = s;
        time = t;
        service_code = c;
        code = k;
        payload = p;
      })
decode [] true s (some t) (pos c) (pos k) p b h = ground (arith, h, str_eq_iff s "room")
decode [] true s (some t) (pos c) (negsuc k) p b h = cc
decode [] true s (some t) (negsuc c) k p b h = cc
decode [] true s none c k p b h = cc
decode [] false s t c k p b h = cc
decode (x ∷ r) e s t c k p b h = cc

unmarshal-marshal : (m : Message) (b : List ℕ) → marshal m ≡ some b → unmarshal b ≡ some m
unmarshal-marshal m b h =
    decode m.receiver m.to_everyone m.stream m.time m.service_code m.code m.payload b h

abbrev news : Message
news = record {
  receiver = [];
  to_everyone = true;
  stream = "room";
  time = none;
  service_code = pos 1;
  code = pos 2;
  payload = 9 ∷ [];
}

abbrev bus : Dispatcher Message
bus = record {
  workers = [];
  retired = [];
  received = [];
  started = [];
  unordered = [];
  stopped = false;
}

publish-news : publish marshal (λ b. true) 5 news ≡ ok (5 ∷ 1 ∷ 2 ∷ 9 ∷ [])
unfolding publish enqueue stamped
publish-news = refl

room :
    length (worker_of (λ m. m.stream) bus_capacity bus_idle bus.workers "room").queue < bus_capacity
unfolding worker_of Map.load
room = omega arith

publish-hear_payload_example :
    let w = worker_of (λ m. m.stream) bus_capacity bus_idle bus.workers "room" in
    let d' = hear_payload unmarshal 6 true (5 ∷ 1 ∷ 2 ∷ 9 ∷ []) bus in
    let w' = worker_of (λ m. m.stream) bus_capacity bus_idle d'.workers "room" in
    (m' : Message) × (w'.queue ≡ w.queue ++ (m' ∷ []))
    × ((t : ℕ) → news.time ≡ some t → m' ≡ news)
    × (news.time ≡ none → m' ≡ record news { time = some 5 })
    × (d'.started ≡ bus.started)
    × (pos 1 ≢ pos 0)
    × (pos 2 ≢ pos 0)
    × (news.receiver ≡ [] → true ≡ true)
publish-hear_payload_example =
    publish-hear_payload marshal (λ b. true) unmarshal 5 6 true news (5 ∷ 1 ∷ 2 ∷ 9 ∷ []) bus
      unmarshal-marshal publish-news (λ e. ground (arith, e, str_eq_iff "room" "")) refl room
