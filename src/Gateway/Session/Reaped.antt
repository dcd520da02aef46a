-- ===== src/Gateway/Session/Reaped.antt =====
-- What rounds of removeZombie do to sessions of any transport.
use nodehub.Base.{
  ℕ, ◌+◌, ◌≤◌, ◌<◌, ◌≡◌, refl, ap, sym, ◌∙◌, List, [], ◌∷◌, true, ltb, if◌then◌else◌, if-cases,
  arith,
}
use nodehub.Gateway.Session.{Session, is_zombie, reap_one, reap}

module _ {S : Type 0} ⦃c : Session S⦄ where
  -- The sessions after a round, one for one: an idle one is closed, another one is as it was; and
  -- none is any younger.
  pub data Reaped (keepalive now : ℕ) : List S → List S → Type 0 where
    no_more : Reaped keepalive now [] []
    and_one :
        {before after : List S} (s t : S)
        → (c.last_rw s + keepalive < now → c.is_closed t ≡ true)
        → (now ≤ c.last_rw s + keepalive → t ≡ s)
        → c.last_rw t ≡ c.last_rw s
        → Reaped keepalive now before after
        → Reaped keepalive now (s ∷ before) (t ∷ after)

  reap-Reaped :
      (keepalive now : ℕ) (sessions : List S)
      → Reaped keepalive now sessions (reap keepalive now sessions)
  unfolding reap reap_one is_zombie
  reap-Reaped keepalive now [] = no_more
  reap-Reaped keepalive now (s ∷ sessions) =
      let old = ltb (c.last_rw s + keepalive) now in
      and_one s (reap_one keepalive now s)
        (λ l.
          if-cases (λ t. c.is_closed t ≡ true) old (c.close s) s (λ _. c.close-closed s)
            (λ e. absurd (ground (arith, e, l))))
        (λ l.
          if-cases (λ t. t ≡ s) old (c.close s) s (λ e. absurd (ground (arith, e, l))) (λ _. refl))
        (if-cases (λ t. c.last_rw t ≡ c.last_rw s) old (c.close s) s (λ _. c.close-last_rw s)
          (λ _. refl))
        (reap-Reaped keepalive now sessions)

  reap_one-zombie :
      (keepalive now : ℕ) (s : S)
      → ltb (c.last_rw s + keepalive) now ≡ true
      → reap_one keepalive now s ≡ c.close s
  unfolding reap_one is_zombie
  reap_one-zombie keepalive now s e = ap (λ b. if b then c.close s else s) e

  reap_one_later :
      (keepalive now later : ℕ) (s : S)
      → now ≤ later
      → reap_one keepalive later (reap_one keepalive now s) ≡ reap_one keepalive later s
  unfolding reap_one is_zombie
  reap_one_later keepalive now later s l =
      if-cases (λ t. reap_one keepalive later t ≡ reap_one keepalive later s)
        (ltb (c.last_rw s + keepalive) now) (c.close s) s (λ e. closed_before e) (λ _. refl)
    where
      closed_before :
          ltb (c.last_rw s + keepalive) now ≡ true
          → reap_one keepalive later (c.close s) ≡ reap_one keepalive later s
      closed_before e =
          let f : ltb (c.last_rw s + keepalive) later ≡ true = ground (arith, e, l) in
          reap_one-zombie keepalive later (c.close s) (rw (c.close-last_rw s) f)
          ∙ c.close_again s
          ∙ sym (reap_one-zombie keepalive later s f)

  reap_later :
      (keepalive now later : ℕ) (sessions : List S)
      → now ≤ later
      → reap keepalive later (reap keepalive now sessions) ≡ reap keepalive later sessions
  unfolding reap
  reap_later keepalive now later [] l = refl
  reap_later keepalive now later (s ∷ sessions) l =
      rw (reap_one_later keepalive now later s l)
        (ap (◌∷◌ (reap_one keepalive later s)) (reap_later keepalive now later sessions l))

  -- Of the sessions of any transport, a round of removeZombie closes each one that was not read or
  -- written for longer than the keepalive interval, and leaves each other one as it was; and a
  -- round that was missed makes no difference to the sessions after a later one, if nothing is read
  -- or written between them.
  pub reap-reap :
      (keepalive now later : ℕ) (sessions : List S)
      → now ≤ later
      → Reaped keepalive now sessions (reap keepalive now sessions)
        × (reap keepalive later (reap keepalive now sessions) ≡ reap keepalive later sessions)
  reap-reap keepalive now later sessions l =
      (reap-Reaped keepalive now sessions, reap_later keepalive now later sessions l)
