-- ===== src/Payment/Hub/Connection.antt =====
-- pkg/payment/shinzohub.go: the connection to ShinzoHub (Start), with its reader and its pings, and
-- the height of the chain. The web socket and HTTP are parameters.
use Prim.Native.String as Text
use package.shinzo_scheduler_service.Base.{
  ℕ, String, Bool, none, some, Option, List, [], ◌++◌, Result, ok, err, Action, ◌>>=◌, ◌>>◌, pure,
  attempt, if◌then◌else◌,
}
use package.shinzo_scheduler_service.Base.Int.{ℤ, pos}
use package.shinzo_scheduler_service.Base.Decimal.{parse_int}
use package.shinzo_scheduler_service.Base.Loops.{Pass, goes_on, returns, loop}
use package.shinzo_scheduler_service.Base.Tickers.{Signal, ticker_loop}
use package.shinzo_scheduler_service.Payment.Client.{
  event_subscription_created, event_subscription_expired,
}
use package.shinzo_scheduler_service.Payment.Hub.{ShinzoHubSubscriber, Reaction, dispatch}

-- A JSON-RPC message, with the query of its parameters where it has one.
pub record RpcMessage : Type 0 where
  pub method : String
  pub id : ℤ
  pub query : Option String

-- `wsConn`, on a state of the network. The error of a `Close` is dropped by all callers.
pub record WsConn (W : Type 0) : Type 0 where
  pub write_json : RpcMessage → Action W (Unit {0})
  pub read_message : Action W String
  pub close : W → W

pub record WsDialer (W : Type 0) : Type 0 where
  pub dial : String → Action W (WsConn W)

abbrev pub subscribe_to : ℤ → String → RpcMessage
subscribe_to id event = record {
  method = "subscribe";
  id = id;
  query = some (Text.◌++◌ "tm.event='Tx' AND " (Text.◌++◌ event ".subscription_id EXISTS"));
}

abbrev pub ping : RpcMessage
ping = record { method = "status"; id = pos 999; query = none }

module _ {W : Type 0} where
  -- An error closes the connection and is returned.
  abbrev pub or_close : {A : Type 0} → WsConn W → String → Action W A → Action W A
  or_close conn message call w =
      let (r, w') = call w in elim r [ ok a ↦ (ok a, w') | err e ↦ (err message, conn.close w') ]

  -- One pass of the loop over the queries: what is read as the answer is dropped.
  unfoldable pub subscribe : WsConn W → RpcMessage → Action W (Unit {0})
  subscribe conn msg = do
    or_close conn "shinzohub subscribe" (conn.write_json msg)
    or_close conn "shinzohub subscribe ack" conn.read_message
    pure tt

  -- The reader and the pings start with the connection that is returned.
  unfoldable pub start : ShinzoHubSubscriber → WsDialer W → Action W (WsConn W)
  start s dialer = do
    conn ← dialer.dial s.rpc_url
    subscribe conn (subscribe_to (pos 1) event_subscription_created)
    subscribe conn (subscribe_to (pos 2) event_subscription_expired)
    pure conn

  -- The goroutine of the pings: one on each tick, whose error is logged only.
  unfoldable pub keep_alive : WsConn W → (ℕ → Signal) → ℕ → W → Option W
  keep_alive conn signals fuel w =
      ticker_loop (λ k now w. (attempt (conn.write_json ping) w).1) signals fuel w

-- The envelope of a message has the height and the events; one that cannot be decoded is dropped.
unfoldable pub dispatch_raw : ShinzoHubSubscriber → String → List Reaction
dispatch_raw s raw = elim (s.decode_envelope raw) [
  | none ↦ []
  | some (height, evs) ↦ dispatch s height evs
]

module _ {W : Type 0} (s : ShinzoHubSubscriber) (conn : WsConn W) (cancelled : ℕ → Bool) where
  abbrev on_read : List Reaction → Result String → W → Pass (List Reaction × W) (List Reaction × W)
  on_read done (err e) w = returns (done, conn.close w)
  on_read done (ok raw) w = goes_on (done ++ dispatch_raw s raw, w)

  -- A pass of the reader, with the reactions so far. The context may be cancelled at the k-th pass.
  abbrev pub read_pass : ℕ → List Reaction × W → Pass (List Reaction × W) (List Reaction × W)
  read_pass k (done, w) =
      if cancelled k
      then returns (done, conn.close w)
      else on_read done (conn.read_message w).0 (conn.read_message w).1

  -- The reader goroutine: its reactions in their order, and the network that it leaves.
  unfoldable pub read_loop : ℕ → W → Option (List Reaction × W)
  read_loop fuel w = loop read_pass fuel 0 ([], w)

-- `http_get` gives the body of a reply, and `decode_status` the text of the latest block's height.
abbrev height_of : (String → Option String) → Result String → Result ℤ
height_of decode_status (err e) = err e
height_of decode_status (ok body) = elim (decode_status body) [
  | none ↦ err "parse status"
  | some text ↦ elim (parse_int text) [ none ↦ err "parse block height" | some h ↦ ok h ]
]

unfoldable pub get_chain_height :
    ShinzoHubSubscriber → (String → Option String) → (String → Result String) → Result ℤ
get_chain_height s decode_status http_get =
    height_of decode_status (http_get (Text.◌++◌ "http://" (Text.◌++◌ s.rpc_url "/status")))
