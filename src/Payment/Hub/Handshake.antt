-- ===== src/Payment/Hub/Handshake.antt =====
-- The start of the connection to ShinzoHub (Start of pkg/payment/shinzohub.go).
use package.shinzo_scheduler_service.Base.{
  String, ◌≡◌, subst, ◌⊎◌, inl, inr, ok, err, arith, Result-cases,
}
use package.shinzo_scheduler_service.Base.Int.{pos}
use package.shinzo_scheduler_service.Payment.Client.{
  event_subscription_created, event_subscription_expired,
}
use package.shinzo_scheduler_service.Payment.Hub.{ShinzoHubSubscriber}
use package.shinzo_scheduler_service.Payment.Hub.Connection.{
  RpcMessage, WsConn, WsDialer, subscribe_to, subscribe, start,
}

module _ {W : Type 0} where
  -- The message was written, and one message was read after it, whichever that is.
  abbrev pub Exchanged : WsConn W → RpcMessage → W → W → Type 0
  Exchanged conn msg w t =
      ((conn.write_json msg w).0 ≡ ok tt)
      × (answer : String) × (conn.read_message (conn.write_json msg w).1 ≡ (ok answer, t))

  -- The network is as after the end of this connection.
  abbrev pub Closed : WsConn W → W → Type 0
  Closed conn t = (w : W) × (t ≡ conn.close w)

  subscribe-cases :
      (conn : WsConn W) (msg : RpcMessage) (w : W)
      → let t = subscribe conn msg w in
        ((t.0 ≡ ok tt) × Exchanged conn msg w t.1)
        ⊎ ((e : String) × (t.0 ≡ err e) × Closed conn t.1)
  unfolding subscribe
  subscribe-cases conn msg w = elim (Result-cases (conn.write_json msg w).0) [
    | inr (e, q) ↦
        inr ("shinzohub subscribe", ground arith, ((conn.write_json msg w).1, ground arith))
    | inl (u, q) ↦
        let w1 = (conn.write_json msg w).1 in
        elim (Result-cases (conn.read_message w1).0) [
          | inr (e, r) ↦
              inr
                ("shinzohub subscribe ack", ground arith, ((conn.read_message w1).1, ground arith))
          | inl (answer, r) ↦ inl (ground arith, (ground arith, answer, ground arith))
        ]
  ]

  -- A start that succeeds has dialled the address, and has made the two subscriptions one after the
  -- other, taking one message off the connection after each. A start that fails has no connection or
  -- has closed it.
  pub start-cases :
      (s : ShinzoHubSubscriber) (dialer : WsDialer W) (w : W)
      → let t = start s dialer w in
        let dialled = dialer.dial s.rpc_url w in
        ((conn : WsConn W) × (between : W) × (t.0 ≡ ok conn)
          × (dialled.0 ≡ ok conn)
          × Exchanged conn (subscribe_to (pos 1) event_subscription_created) dialled.1 between
          × Exchanged conn (subscribe_to (pos 2) event_subscription_expired) between t.1)
        ⊎ ((e : String) × (t.0 ≡ err e)
            × (((e' : String) × (dialled ≡ (err e', t.1)))
                ⊎ ((conn : WsConn W) × (dialled.0 ≡ ok conn) × Closed conn t.1)))
  unfolding start
  start-cases s dialer w = elim (Result-cases (dialer.dial s.rpc_url w).0) [
    | inr (e, q) ↦ inr (e, ground arith, inl (e, ground arith))
    | inl (conn, q) ↦
        let w0 = (dialer.dial s.rpc_url w).1 in
        let first_msg = subscribe_to (pos 1) event_subscription_created in
        let second_msg = subscribe_to (pos 2) event_subscription_expired in
        elim (subscribe-cases conn first_msg w0) [
          | inr (e, r, (u, closed)) ↦ inr (e, ground arith, inr (conn, q, (u, ground arith)))
          | inl (r, exchanged) ↦
              let w1 = (subscribe conn first_msg w0).1 in
              elim (subscribe-cases conn second_msg w1) [
                | inr (e, r', (u, closed)) ↦ inr (e, ground arith, inr (conn, q, (u, ground arith)))
                | inl (r', exchanged') ↦ inl (
                  conn,
                  w1,
                  ground arith,
                  q,
                  exchanged,
                  subst (λ t. Exchanged conn second_msg w1 t) (ground arith) exchanged',
                )
              ]
        ]
  ]
