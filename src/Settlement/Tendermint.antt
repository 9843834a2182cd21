-- ===== src/Settlement/Tendermint.antt =====
-- pkg/settlement/broadcaster.go: the broadcaster that posts the messages to a Tendermint node. The
-- JSON of the messages and of the reply, base64 and the transport of HTTP are parameters.
pub mod Posts
use Prim.Native.Char.{Char, code}
use Prim.Native.String as Text
use package.shinzo_scheduler_service.Base.{
  String, Bool, not, none, some, Option, Result, ok, err, Action, ◌>>=◌, pure, fail, reads, nat_eq,
  if◌then◌else◌,
}
use package.shinzo_scheduler_service.Base.Int.{ℤ, pos, eqb_ℤ}
use package.shinzo_scheduler_service.Settlement.Hub.{
  MsgCloseSession, MsgBatchSettlement, MsgSignalLowCredit, MsgSlash, HubBroadcaster,
}

-- The fields of the reply's `result`.
pub record BroadcastResponse : Type 0 where
  pub code : ℤ
  pub hash : String
  pub log : String

-- Packages encoding/json and encoding/base64: `json.Marshal` at the types of the messages,
-- `base64.StdEncoding.EncodeToString`, and `json.Unmarshal` at the type of the reply.
pub record Encoding (F : Type 0) : Type 0 where
  pub marshal_close_session : MsgCloseSession F → Option String
  pub marshal_batch_settlement : MsgBatchSettlement F → Option String
  pub marshal_low_credit : MsgSignalLowCredit F → Option String
  pub marshal_slash : MsgSlash → Option String
  pub encode_base64 : String → String
  pub unmarshal_response : String → Option BroadcastResponse

-- `http_client` makes a request of an URL and a body, and gives the body of the reply, whatever the
-- status of that.
pub record TendermintBroadcaster (H : Type 0) : Type 0 where
  pub rpc_url : String
  pub scheduler_id : String
  pub http_client : String → String → Action H String

abbrev unless_slash : Char → String → String
unless_slash ch String.[] = if nat_eq (code ch) 47 then "" else String.◌∷◌ ch ""
unless_slash ch (String.◌∷◌ next rest) = String.◌∷◌ ch (String.◌∷◌ next rest)

-- `strings.TrimRight(s, "/")`
unfoldable pub trim_right_slashes : String → String
trim_right_slashes String.[] = ""
trim_right_slashes (String.◌∷◌ ch rest) = unless_slash ch (trim_right_slashes rest)

unfoldable pub new_tendermint_broadcaster :
    {H : Type 0} → String → String → (String → String → Action H String) → TendermintBroadcaster H
new_tendermint_broadcaster rpc_url scheduler_id http_client = record {
  rpc_url = trim_right_slashes rpc_url;
  scheduler_id = scheduler_id;
  http_client = http_client;
}

-- The JSON of the request, with the keys in the order in which a map is written.
abbrev pub rpc_body : String → String
rpc_body encoded =
    Text.◌++◌ "{\"id\":1,\"jsonrpc\":\"2.0\",\"method\":\"broadcast_tx_sync\",\"params\":{\"tx\":\""
      (Text.◌++◌ encoded "\"}}")

abbrev pub decoded : {A : Type 0} → String → Option A → Result A
decoded message none = err message
decoded message (some a) = ok a

module _ {F H : Type 0} (wire : Encoding F) (b : TendermintBroadcaster H) where
  -- The test of the reply's code, and the hash that is returned.
  unfoldable pub read_reply : String → Result String
  read_reply body = elim (wire.unmarshal_response body) [
    | none ↦ err "parse broadcast response"
    | some br ↦ if not (eqb_ℤ br.code (pos 0)) then err "broadcast failed" else ok br.hash
  ]

  -- `raw` is the marshalled payload.
  unfoldable pub broadcast : Option String → Action H String
  broadcast payload = do
    raw ← reads (λ h. decoded "marshal" payload)
    body ←
        b.http_client (Text.◌++◌ b.rpc_url "/broadcast_tx_sync") (rpc_body (wire.encode_base64 raw))
    reads (λ h. read_reply body)

  unfoldable pub broadcast_close_session : MsgCloseSession F → Action H String
  broadcast_close_session msg = broadcast (wire.marshal_close_session msg)

  unfoldable pub broadcast_batch_settlement : MsgBatchSettlement F → Action H String
  broadcast_batch_settlement msg = broadcast (wire.marshal_batch_settlement msg)

  unfoldable pub broadcast_low_credit : MsgSignalLowCredit F → Action H String
  broadcast_low_credit msg = broadcast (wire.marshal_low_credit msg)

  unfoldable pub broadcast_slash : MsgSlash → Action H String
  broadcast_slash msg = broadcast (wire.marshal_slash msg)

  -- The broadcaster as the managers use it.
  abbrev pub tendermint : HubBroadcaster F H
  tendermint = record {
    broadcast_close_session = broadcast_close_session;
    broadcast_batch_settlement = broadcast_batch_settlement;
    broadcast_low_credit = broadcast_low_credit;
    broadcast_slash = broadcast_slash;
  }
