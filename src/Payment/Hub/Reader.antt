-- ===== src/Payment/Hub/Reader.antt =====
-- The reader and the handshake of the connection to ShinzoHub (Start of pkg/payment/shinzohub.go).
use package.shinzo_scheduler_service.Base.{
  ℕ, suc, ◌<◌, String, ◌≡◌, refl, sym, ap, subst, ◌∙◌, ◌⊎◌, inl, inr, Bool, true, false, some, List,
  [], ◌∷◌, ◌++◌, length, ok, err, arith,
}
use mathlib.Core.List.{append-nil, append_assoc}
use package.shinzo_scheduler_service.Base.Loops.{
  goes_on, returns, GoesOn, here, there, loop-returns,
}
use package.shinzo_scheduler_service.Payment.Hub.{ShinzoHubSubscriber, Reaction}
use package.shinzo_scheduler_service.Payment.Hub.Connection.{
  WsConn, dispatch_raw, read_pass, read_loop,
}

-- The reactions to some messages, in their order.
abbrev pub reactions : ShinzoHubSubscriber → List String → List Reaction
reactions s [] = []
reactions s (raw ∷ raws) = dispatch_raw s raw ++ reactions s raws

module _ {W : Type 0} (s : ShinzoHubSubscriber) (conn : WsConn W) (cancelled : ℕ → Bool) where
  -- The reads from the k-th on, made before a cancellation, give these messages and then leave the
  -- network like this.
  abbrev pub Reads : ℕ → List String → W → W → Type 0
  Reads k [] w t = w ≡ t
  Reads k (raw ∷ raws) w t =
      (cancelled k ≡ false)
      × ((conn.read_message w).0 ≡ ok raw)
      × Reads (suc k) raws (conn.read_message w).1 t

  -- The pass at which a reader ends: it is cancelled, or it cannot read; it closes the connection.
  abbrev pub LastPass : ℕ → W → W → Type 0
  LastPass k w t =
      ((cancelled k ≡ true) × (t ≡ conn.close w))
      ⊎ ((cancelled k ≡ false)
          × (e : String) × ((conn.read_message w).0 ≡ err e)
          × (t ≡ conn.close (conn.read_message w).1))

  goes_on_reading :
      (k : ℕ) (raw : String) (w : W) (done : List Reaction)
      → cancelled k ≡ false
      → (conn.read_message w).0 ≡ ok raw
      → read_pass s conn cancelled k (done, w)
        ≡ goes_on (done ++ dispatch_raw s raw, (conn.read_message w).1)
  goes_on_reading k raw w done on read = rw (on, read) refl

  Reads-GoesOn :
      (k : ℕ) (raws : List String) (w t : W) (done : List Reaction)
      → Reads k raws w t
      → GoesOn (read_pass s conn cancelled) (length raws) k (done, w) (done ++ reactions s raws, t)
  Reads-GoesOn k [] w t done e =
      subst (λ x. GoesOn (read_pass s conn cancelled) 0 k (done, w) x)
        (ap (λ xs. (xs, w)) (sym (append-nil done)) ∙ ap (λ v. (done ++ [], v)) e)
        (here k (done, w))
  Reads-GoesOn k (raw ∷ raws) w t done (on, read, rest) =
      there _ k _ (done ++ dispatch_raw s raw, (conn.read_message w).1) _
        (goes_on_reading k raw w done on read)
        (subst
          (λ xs.
            GoesOn (read_pass s conn cancelled) (length raws) (suc k)
              (done ++ dispatch_raw s raw, (conn.read_message w).1) (xs, t))
          (append_assoc done (dispatch_raw s raw) (reactions s raws))
          (Reads-GoesOn (suc k) raws (conn.read_message w).1 t (done ++ dispatch_raw s raw) rest))

  LastPass-returns :
      (k : ℕ) (w t : W) (done : List Reaction)
      → LastPass k w t
      → read_pass s conn cancelled k (done, w) ≡ returns (done, t)
  LastPass-returns k w t done (inl (over, e)) = rw (over, e) refl
  LastPass-returns k w t done (inr (on, e, failed, closed)) = rw (on, failed, closed) refl

  -- A reader that gets some messages and then is cancelled or fails to read has reacted to each of
  -- these messages once, in their order, and to no other, and has closed the connection and ended.
  pub read_loop-returns :
      (raws : List String) (fuel : ℕ) (w w' t : W)
      → Reads 0 raws w w'
      → LastPass (length raws) w' t
      → length raws < fuel
      → read_loop s conn cancelled fuel w ≡ some (reactions s raws, t)
  unfolding read_loop
  read_loop-returns raws fuel w w' t reads last enough =
      loop-returns _ (length raws) 0 fuel ([], w) _ (reactions s raws, t) enough
        (Reads-GoesOn 0 raws w w' [] reads)
        (subst
          (λ k. read_pass s conn cancelled k (reactions s raws, w') ≡ returns (reactions s raws, t))
          (omega arith) (LastPass-returns (length raws) w' t (reactions s raws) last))
