-- ===== src/Node/Starts.antt =====
-- What Serve calls of the components, and in which order.
use nodehub.Base.{
  All-append, All-split, ◌≡◌, refl, String, Option, none, some, List, [], ◌∷◌, ◌++◌, Bool, true,
  false, if◌then◌else◌, All, Bool-cases, inl, inr,
}
use nodehub.Node.{
  Component, Call, before_starts, starts, after_starts, before_stops, stops, after_stops, NodeError,
  before_start_failed, start_failed, start_component, start_each, inject_service, stop_component,
  stop_each, Interleaves, ends, next,
}

-- The calls that start a component.
abbrev pub start_calls : Component → List Call
start_calls c =
    (elim c.before_start [ none ↦ [] | some _ ↦ before_starts c.name ∷ [] ])
    ++ (starts c.name ∷ (if c.after_start then after_starts c.name ∷ [] else []))

abbrev pub all_starts : List Component → List Call
all_starts [] = []
all_starts (c ∷ components) = start_calls c ++ all_starts components

-- The calls up to the one that fails, with its error.
pub data Fails (c : Component) : List Call → NodeError → Type 0 where
  at_before :
      (e : String)
      → c.before_start ≡ some (some e)
      → Fails c (before_starts c.name ∷ []) (before_start_failed c.name e)
  at_start :
      (e : String)
      → c.before_start ≡ none
      → c.start ≡ some e
      → Fails c (starts c.name ∷ []) (start_failed c.name e)
  at_start_after :
      (e : String)
      → c.before_start ≡ some none
      → c.start ≡ some e
      → Fails c (before_starts c.name ∷ starts c.name ∷ []) (start_failed c.name e)

-- The components are started in order, until one fails.
pub data Started : List Component → List Call → Option NodeError → Type 0 where
  start_none : Started [] [] none
  fails :
      (c : Component) (later : List Component) (calls : List Call) (e : NodeError)
      → Fails c calls e
      → Started (c ∷ later) calls (some e)
  goes_on :
      (c : Component) (later : List Component) (calls : List Call) (r : Option NodeError)
      → Started later calls r
      → Started (c ∷ later) (start_calls c ++ calls) r

start_first-Started :
    (c : Component) (b : Option (Option String)) (s : Option String) (a : Bool)
    (later : List Component)
    → Started later (start_each later).0 (start_each later).1
    → let c' = record c { before_start = b; start = s; after_start = a } in
      Started (c' ∷ later) (start_each (c' ∷ later)).0 (start_each (c' ∷ later)).1
unfolding start_each start_component
start_first-Started c none none true later h =
    goes_on _ later (start_each later).0 (start_each later).1 h
start_first-Started c none none false later h =
    goes_on _ later (start_each later).0 (start_each later).1 h
start_first-Started c none (some e) a later h = fails _ later _ _ (at_start e refl refl)
start_first-Started c (some none) none true later h =
    goes_on _ later (start_each later).0 (start_each later).1 h
start_first-Started c (some none) none false later h =
    goes_on _ later (start_each later).0 (start_each later).1 h
start_first-Started c (some none) (some e) a later h =
    fails _ later _ _ (at_start_after e refl refl)
start_first-Started c (some (some e)) s a later h = fails _ later _ _ (at_before e refl)

pub start_each-Started :
    (components : List Component)
    → Started components (start_each components).0 (start_each components).1
unfolding start_each
start_each-Started [] = start_none
start_each-Started (c ∷ components) =
    start_first-Started c c.before_start c.start c.after_start components
      (start_each-Started components)

-- Whether a call stops a component.
abbrev pub is_stop : Call → Bool
is_stop (before_stops _) = true
is_stop (stops _) = true
is_stop (after_stops _) = true
is_stop _ = false

abbrev pub Stops : List Call → Type 0
Stops = All (λ call. is_stop call ≡ true)

abbrev pub NoStops : List Call → Type 0
NoStops = All (λ call. is_stop call ≡ false)

-- Every call of a trace comes from one of the goroutines.
pub Interleaves-All :
    (P : Call → Type 0) (queues : List (List Call)) (trace : List Call)
    → Interleaves queues trace
    → All (All P) queues
    → All P trace
Interleaves-All P queues trace (ends rest) h = tt
Interleaves-All P queues trace (next before after call calls rest i) h =
    let (b, c) = All-split (All P) before ((call ∷ calls) ∷ after) h in
    (
      c.0.0,
      Interleaves-All P (before ++ (calls ∷ after)) rest i
          (All-append (All P) before (calls ∷ after) b (c.0.1, c.1)),
    )

stop_component-Stops : (c : Component) → Stops (stop_component c)
unfolding stop_component
stop_component-Stops c = by_hooks c.before_stop c.after_stop
  where
    by_hooks : (b a : Bool) → Stops (stop_component (record c { before_stop = b; after_stop = a }))
    by_hooks true true = (refl, (refl, (refl, tt)))
    by_hooks true false = (refl, (refl, tt))
    by_hooks false true = (refl, (refl, tt))
    by_hooks false false = (refl, tt)

pub stop_each-Stops : (components : List Component) → All Stops (stop_each components)
unfolding stop_each
stop_each-Stops [] = tt
stop_each-Stops (c ∷ components) = (stop_component-Stops c, stop_each-Stops components)

start_calls-NoStops : (c : Component) → NoStops (start_calls c)
start_calls-NoStops c = by_hooks c.before_start c.after_start
  where
    by_hooks :
        (b : Option (Option String)) (a : Bool)
        → NoStops (start_calls (record c { before_start = b; after_start = a }))
    by_hooks none true = (refl, (refl, tt))
    by_hooks none false = (refl, tt)
    by_hooks (some e) true = (refl, (refl, (refl, tt)))
    by_hooks (some e) false = (refl, (refl, tt))

pub Started-NoStops :
    (components : List Component) (calls : List Call) (r : Option NodeError)
    → Started components calls r
    → NoStops calls
Started-NoStops components calls r start_none = tt
Started-NoStops components calls r (fails c later cs e (at_before x b)) = (refl, tt)
Started-NoStops components calls r (fails c later cs e (at_start x b s)) = (refl, tt)
Started-NoStops components calls r (fails c later cs e (at_start_after x b s)) = (refl, (refl, tt))
Started-NoStops components calls r (goes_on c later cs r' h) =
    All-append _ (start_calls c) cs (start_calls-NoStops c) (Started-NoStops later cs r' h)

pub inject_service-NoStops : (components : List Component) → NoStops (inject_service components)
unfolding inject_service
inject_service-NoStops [] = tt
inject_service-NoStops (c ∷ components) = elim (Bool-cases c.register_service) [
  | inl e ↦ rw (e, inject_service) (refl, tt)
  | inr e ↦ rw (e, inject_service) (inject_service-NoStops components)
]
