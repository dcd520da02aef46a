-- ===== src/Gateway/Session.antt =====
-- component/gateway/proxy.go: what the proxy asks of a session whatever its transport, and a round
-- of removeZombie over the sessions.
pub mod Transports
pub mod Reaped
pub mod Tests
use nodehub.Base.{ℕ, ◌+◌, ◌≡◌, List, [], ◌∷◌, Bool, true, ltb, if◌then◌else◌}

-- The methods of the interface Session that removeZombie uses, and what it relies on: Close closes,
-- a second Close changes nothing, and closing is neither reading nor writing.
pub record Session (S : Type 0) : Type 0 where
  pub close : S → S
  pub is_closed : S → Bool
  pub last_rw : S → ℕ
  pub close-closed : (s : S) → is_closed (close s) ≡ true
  pub close_again : (s : S) → close (close s) ≡ close s
  pub close-last_rw : (s : S) → last_rw (close s) ≡ last_rw s

module _ {S : Type 0} ⦃c : Session S⦄ where
  -- `time.Since(s.LastRWTime()) > p.opts.KeepaliveInterval`
  unfoldable pub is_zombie : ℕ → ℕ → S → Bool
  is_zombie keepalive now s = ltb (c.last_rw s + keepalive) now

  unfoldable pub reap_one : ℕ → ℕ → S → S
  reap_one keepalive now s = if is_zombie keepalive now s then c.close s else s

  -- The sessions in the order of Range.
  unfoldable pub reap : ℕ → ℕ → List S → List S
  reap keepalive now [] = []
  reap keepalive now (s ∷ sessions) = reap_one keepalive now s ∷ reap keepalive now sessions
