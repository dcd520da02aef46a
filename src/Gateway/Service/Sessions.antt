-- ===== src/Gateway/Service/Sessions.antt =====
-- What the listing of the sessions sends.
use nodehub.Base.{
  ◌≡◌, ◌≢◌, refl, ap, String, Option, none, List, [], ◌∷◌, ◌++◌, map, All, Option-cases, inl, inr,
}
use nodehub.Base.Map.{Map}
use nodehub.Gateway.SessionHub.{HubSession}
use nodehub.Gateway.Service.{GwService, SessionInfo, send_infos, list_sessions}

unfoldable pub values : Map String HubSession → List HubSession
values [] = []
values ((id, sess) ∷ sessions) = sess ∷ values sessions

module _ {E : Type 0} (describe : HubSession → SessionInfo) (send : SessionInfo → Option E) where
  -- The answer of the stream to the first session that was not sent is the error.
  abbrev pub StoppedBy : List SessionInfo → Option E → Type 0
  StoppedBy [] error = error ≡ none
  StoppedBy (info ∷ rest) error = (send info ≡ error) × (error ≢ none)

  -- The sessions that were sent come first of all, in order, and the stream took each; the error
  -- is the stream's answer to the next, and there is none if there is no next.
  pub record Prefix (all : List SessionInfo) (sent : List SessionInfo) (error : Option E)
      : Type 0 where
    pub rest : List SessionInfo
    pub whole : all ≡ sent ++ rest
    pub taken : All (λ info. send info ≡ none) sent
    pub stopped : StoppedBy rest error

  send_infos-Prefix :
      (sessions : Map String HubSession)
      → let (sent, error) = send_infos describe send sessions in
        Prefix (map describe (values sessions)) sent error
  unfolding send_infos values
  send_infos-Prefix [] = record { rest = []; whole = refl; taken = tt; stopped = refl }
  send_infos-Prefix ((id, sess) ∷ sessions) =
      let ih = send_infos-Prefix sessions in
      elim (Option-cases (send (describe sess))) [
        | inl e ↦
            rw (e, send_infos)
              (record {
                rest = ih.rest;
                whole = ap (◌∷◌ (describe sess)) ih.whole;
                taken = (e, ih.taken);
                stopped = ih.stopped;
              })
        | inr (x, e) ↦
            rw (e, send_infos)
              (record {
                rest = map describe (values ((id, sess) ∷ sessions));
                whole = refl;
                taken = tt;
                stopped = (e, λ n. cc);
              })
      ]

  -- The listing sends what every session of the hub tells of itself, in the order of Range, until
  -- the stream refuses one; it answers the error of that refusal, and none if there is none.
  pub list_sessions-Prefix :
      (s : GwService)
      → let (sent, error) = list_sessions describe send s in
        Prefix (map describe (values s.session_hub.sessions)) sent error
  unfolding list_sessions
  list_sessions-Prefix s = send_infos-Prefix s.session_hub.sessions
