-- ===== src/Ipc/Reading.antt =====
-- When a connection reads (haysel/src/ipc.rs).
use hayselnut.Common.{◌%◌, ◌^◌, ◌≡◌, ◌⊎◌, inl, inr, refl, length, Option-cases, none, some, returns}
use hayselnut.Registry.Data.{Uuid}
use hayselnut.Tsdb.Query.{
  QueryBuilder, verified, query_params, with_station, with_channel, with_after, verify,
}
use hayselnut.Dispatch.{Asked, answered, dispatch_err}
use hayselnut.Mycelium.{
  Socket, Format, IpcError, io, serialize, to_be_bytes, gives, fails, Io, done, io_failed, ipc_send,
  then_,
}
use hayselnut.Ipc.{
  IpcMsgKind, client_disconnect, query_last_hour_of, query_last_hour_response, last_hour_query,
  answer, bye, Connection, Peer, read_msg, Method, goes_on, errs, method_panics, handle_read,
  sending, trying, answer_query,
}

module _ {E S : Type 0} where
  Io-cases :
      {A : Type 0} (o : Io E S A)
      → ((a : A) × (s : S) × (o ≡ done a s)) ⊎ ((e : E) × (s : S) × (o ≡ io_failed e s))
  Io-cases (done a s) = inl (a, s, refl)
  Io-cases (io_failed e s) = inr (e, s, refl)

  -- A message is sent, or an error comes back.
  pub ipc_send-cases :
      {T : Type 0} (socket : Socket E S) (format : Format T) (x : T) (s : S)
      → ((s' : S) × (ipc_send socket format x s ≡ gives _ s'))
        ⊎ ((e : IpcError E) × (s' : S) × (ipc_send socket format x s ≡ fails e s'))
  unfolding ipc_send
  ipc_send-cases socket format x s = elim (Option-cases (format.to_vec_named x)) [
    | inl none_such ↦ inr (serialize, s, rw (none_such, ipc_send) refl)
    | inr (bytes, formed) ↦
        elim (Io-cases (socket.write_all (to_be_bytes (length bytes % 2 ^ 64)) s)) [
          | inr (e, s', failed) ↦ inr (io e, s', rw (formed, ipc_send) (rw (failed, then_) refl))
          | inl (_, s', written) ↦ elim (Io-cases (socket.write_all bytes s')) [
            | inr (e, s'', failed) ↦
                inr
                  (io e, s'', rw (formed, ipc_send) (rw (written, then_) (rw (failed, then_) refl)))
            | inl (_, s'', sent) ↦
                inl (s'', rw (formed, ipc_send) (rw (written, then_) (rw (sent, then_) refl)))
          ]
        ]
  ]

-- Where the half is when a method goes on: back in its slot after a disconnect, otherwise with a task that reads.
abbrev pub IsReading :
    {Half F DateTime : Type 0} → Half → IpcMsgKind F DateTime → Connection Half → Type 0
IsReading half client_disconnect c = (c.read ≡ some half) × (c.reading ≡ none)
IsReading half _ c = (c.read ≡ none) × (c.reading ≡ some half)

abbrev pub IsIdle : {Half : Type 0} → Half → Connection Half → Type 0
IsIdle half c = (c.read ≡ some half) × (c.reading ≡ none)

-- The method does not panic, and leaves the half in one place.
abbrev pub Leaves :
    {E Half W : Type 0} → Half → (Connection Half → Type 0) → Method E (Connection Half) W → Type 0
Leaves half OnGoing (goes_on c w) = OnGoing c
Leaves half OnGoing (errs e c w) = IsIdle half c
Leaves half OnGoing method_panics = ⊥

module _ {F DateTime E W Half : Type 0} (peer : Peer F DateTime E W) (half : Half) where
  sending-Leaves :
      (kind : IpcMsgKind F DateTime) (OnGoing : Connection Half → Type 0) (c : Connection Half)
      (w : W) (rest : W → Method E (Connection Half) W)
      → IsIdle half c
      → ((w' : W) → Leaves half OnGoing (rest w'))
      → Leaves half OnGoing (sending peer kind c w rest)
  sending-Leaves kind OnGoing c w rest idle then_leaves =
      elim (ipc_send-cases peer.socket peer.format kind w) [
        | inl (w', e) ↦ rw (e, sending) (then_leaves w')
        | inr (err, w', e) ↦ rw (e, sending) idle
      ]

  trying-Leaves :
      (kind : IpcMsgKind F DateTime) (OnGoing : Connection Half → Type 0) (w : W)
      (rest : W → Method E (Connection Half) W)
      → ((w' : W) → Leaves half OnGoing (rest w'))
      → Leaves half OnGoing (trying peer kind w rest)
  trying-Leaves kind OnGoing w rest then_leaves =
      elim (ipc_send-cases peer.socket peer.format kind w) [
        | inl (w', e) ↦ rw (e, trying) (then_leaves w')
        | inr (err, w', e) ↦ rw (e, trying) (then_leaves w')
      ]

  -- What the builder gives does not panic.
  last_hour_query-params :
      (station channel : Uuid) (from_time : DateTime)
      → (q : QueryBuilder Uuid DateTime verified) × (last_hour_query peer station channel from_time
          ≡ returns (query_params q))
  unfolding last_hour_query with_station with_channel with_after verify
  last_hour_query-params station channel from_time = (_, refl)

  Asked-cases :
      {A : Type 0} (o : Asked A W)
      → ((a : A) × (w : W) × (o ≡ answered a w)) ⊎ ((w : W) × (o ≡ dispatch_err w))
  Asked-cases (answered a w) = inl (a, w, refl)
  Asked-cases (dispatch_err w) = inr (w, refl)

  answer-Leaves :
      (query : QueryBuilder Uuid DateTime verified) (from_time : DateTime) (c : Connection Half)
      (w : W)
      → c.reading ≡ none
      → Leaves half
          (λ c'. (c'.read ≡ none) × (c'.reading ≡ some half))
          (answer peer query from_time (record c { read = some half }) w)
  answer-Leaves query from_time c w nobody = elim (Asked-cases (peer.query_db query w)) [
    | inl (readings, w', e) ↦
        rw (e, answer)
          (sending-Leaves (query_last_hour_response readings from_time) _
            (record c { read = some half }) w' _ (refl, nobody) (λ w''. (refl, refl)))
    | inr (w', e) ↦ rw (e, answer) (refl, nobody)
  ]

  -- Of a connection whose task has read a message, whatever the client, the socket and the database do, the
  -- handler does not panic. Where it goes on, a task reads again with the half of the socket, except after
  -- ClientDisconnect: then the half is back in its slot and nobody reads. So it is after an error.
  pub handle_read-Leaves :
      (kind : IpcMsgKind F DateTime) (c : Connection Half) (w : W)
      → c.reading ≡ none
      → Leaves half (IsReading half kind) (handle_read peer half (read_msg kind) c w)
  unfolding handle_read
  handle_read-Leaves client_disconnect c w nobody =
      trying-Leaves bye (IsReading {F = F} {DateTime = DateTime} half client_disconnect) w
        (goes_on (record c { read = some half })) (λ w'. (refl, nobody))
  handle_read-Leaves (query_last_hour_of station channel) c w nobody =
      let (query, formed) = last_hour_query-params station channel (peer.now w) in
      rw (formed, answer_query) (answer-Leaves query (peer.now w) c w nobody)
  handle_read-Leaves _ c w nobody = (refl, refl)
