-- ===== src/Gateway/Service.antt =====
-- component/gateway/grpc.go: gwService, by which the nodes of the cluster manage the sessions of a
-- gateway and their routes.
pub mod Routes
pub mod Sessions
pub mod Tests
use nodehub.Base.{
  ℕ, String, Option, none, some, List, [], ◌∷◌, Bool, true, false, ◌==◌, nat_eq, string_eq,
  if◌then◌else◌, Outcome, ok, err, panic,
}
use nodehub.Base.Int.{ℤ, pos, int_eq}
use nodehub.Base.Map.{Map}
use nodehub.Gateway.StateTable.{StateTable, store, remove, replace_node}
use nodehub.Gateway.SessionHub.{HubSession, SessionHub, look_up}
use nodehub.Gateway.Lifecycle.{Metadata, hang_up_session}
use nodehub.Gateway.Requests.{Reply}

-- The parts of the proxy that the service shares.
pub record GwService : Type 0 where
  pub session_count : ℤ
  pub session_hub : SessionHub
  pub state_table : StateTable

-- The errors of a session or a stream are of the type `E`.
pub data ServiceError (E : Type 0) : Type 0 where
  invalid_node_id from_service_empty message_type_empty : ServiceError E
  failed : E → ServiceError E

-- `nh.Session`
pub record SessionInfo : Type 0 where
  pub session_id : String
  pub remote_addr : String
  pub transport : String
  pub metadata : Metadata

pub record SetServiceRouteRequest : Type 0 where
  pub session_id : String
  pub service_code : ℤ
  pub node_id : String

pub record RemoveServiceRouteRequest : Type 0 where
  pub session_id : String
  pub service_code : ℤ

pub record ReplaceServiceRouteRequest : Type 0 where
  pub old_node_id : String
  pub new_node_id : String

pub record SendReplyRequest : Type 0 where
  pub session_id : String
  pub reply : Reply

unfoldable pub is_session_exist : GwService → String → Bool
is_session_exist s session_id = elim (look_up s.session_hub session_id) [
  | some _ ↦ true
  | none ↦ false
]

unfoldable pub get_session_count : GwService → ℤ
get_session_count s = s.session_count

module _ {E : Type 0} where
  -- The sessions that `Range` meets, until the stream refuses one: what the stream took, and its
  -- error.
  unfoldable pub send_infos :
      (HubSession → SessionInfo)
      → (SessionInfo → Option E)
      → Map String HubSession
      → List SessionInfo × Option E
  send_infos describe send [] = ([], none)
  send_infos describe send ((id, sess) ∷ sessions) =
      let rest = send_infos describe send sessions in
      elim (send (describe sess)) [
        | some e ↦ ([], some e)
        | none ↦ (describe sess ∷ rest.0, rest.1)
      ]

  -- What a session answers about itself, and what the stream answers, are parameters.
  unfoldable pub list_sessions :
      (HubSession → SessionInfo)
      → (SessionInfo → Option E)
      → GwService
      → List SessionInfo × Option E
  list_sessions describe send s = send_infos describe send s.session_hub.sessions

  -- `closes` is what `Close` answers.
  unfoldable pub close_session :
      GwService → String → Option E → GwService × Outcome (ServiceError E) Bool
  close_session s session_id closes = elim (look_up s.session_hub session_id) [
    | none ↦ (s, ok false)
    | some sess ↦ (
      record s { session_hub = hang_up_session s.session_hub sess },
      elim closes [ some e ↦ err (failed e) | none ↦ ok true ],
    )
  ]

  -- `sends` is what the session's `Send` answers; the list holds the reply that it was given.
  unfoldable pub send_reply :
      GwService
      → SendReplyRequest
      → Option E
      → List (HubSession × Reply) × Outcome (ServiceError E) Bool
  send_reply s req sends = elim (look_up s.session_hub req.session_id) [
    | none ↦ ([], ok false)
    | some sess ↦
        if req.reply.service_code == pos 0
        then ([], err from_service_empty)
        else if req.reply.code == pos 0
        then ([], err message_type_empty)
        else ((sess, req.reply) ∷ [], elim sends [ some e ↦ err (failed e) | none ↦ ok true ])
  ]

  -- `ulid.Parse` is a parameter.
  module _ (parse_id : String → Option ℕ) where
    unfoldable pub set_service_route :
        GwService → SetServiceRouteRequest → GwService × Outcome {0, 0} (ServiceError E) Unit
    set_service_route s req = elim (look_up s.session_hub req.session_id) [
      | none ↦ (s, ok tt)
      | some sess ↦ elim (parse_id req.node_id) [
        | none ↦ (s, err invalid_node_id)
        | some node_id ↦ (
          record s { state_table = store s.state_table req.session_id req.service_code node_id },
          ok tt,
        )
      ]
    ]

    unfoldable pub replace_service_route :
        GwService → ReplaceServiceRouteRequest → GwService × Outcome {0, 0} (ServiceError E) Unit
    replace_service_route s req = elim (parse_id req.old_node_id) [
      | none ↦ (s, err invalid_node_id)
      | some old_id ↦ elim (parse_id req.new_node_id) [
        | none ↦ (s, err invalid_node_id)
        | some new_id ↦ (record s { state_table = replace_node s.state_table old_id new_id }, ok tt)
      ]
    ]

unfoldable pub remove_service_route : GwService → RemoveServiceRouteRequest → GwService
remove_service_route s req = record s {
  state_table = remove s.state_table req.session_id req.service_code;
}
