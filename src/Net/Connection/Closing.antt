-- ===== src/Net/Connection/Closing.antt =====
-- How a connection ends: `shutdown`, `handleClose` and `connectDestroyed`.
use high_performance_chatser.Prelude.{
  ℕ, zero, suc, ◌+◌, ◌≡◌, ◌∙◌, refl, true, List, [], ◌∷◌, ◌++◌, arith,
}
use high_performance_chatser.Net.Buffer.{retrieve}
use high_performance_chatser.Net.Channel.{none_event, is_writing}
use high_performance_chatser.Net.Connection.{
  Connection, connected, disconnecting, disconnected, Write, wrote, would_block, peer_gone,
  other_error, Notice, write_complete, message_callback, connection_callback, close_callback,
  shutdown_write, removed, high_water, drained, advance, after_write, handle_write, shutdown,
  handle_close, connect_destroyed, connect_established,
}

-- How often the write side of the socket was shut down.
unfoldable pub half_closes : List Notice → ℕ
half_closes [] = 0
half_closes (shutdown_write ∷ ns) = suc (half_closes ns)
half_closes (_ ∷ ns) = half_closes ns

-- How often the user was told that the connection changed.
unfoldable pub told : List Notice → ℕ
told [] = 0
told (connection_callback ∷ ns) = suc (told ns)
told (_ ∷ ns) = told ns

half_closes-append :
    (ms ns : List Notice) → half_closes (ms ++ ns) ≡ half_closes ms + half_closes ns
unfolding half_closes
half_closes-append [] ns = omega arith
half_closes-append (shutdown_write ∷ ms) ns = omega (arith, half_closes-append ms ns)
half_closes-append (write_complete ∷ ms) ns = half_closes-append ms ns
half_closes-append (message_callback ∷ ms) ns = half_closes-append ms ns
half_closes-append (connection_callback ∷ ms) ns = half_closes-append ms ns
half_closes-append (close_callback ∷ ms) ns = half_closes-append ms ns
half_closes-append (removed ∷ ms) ns = half_closes-append ms ns
half_closes-append (high_water n ∷ ms) ns = half_closes-append ms ns

-- A series of `handleWrite` calls.
unfoldable pub write_out : List Write → Connection → Connection
unfolding handle_write
write_out [] c = c
write_out (answer ∷ answers) c = write_out answers (handle_write answer c).0

drained_disconnecting :
    (c : Connection)
    → c.state ≡ disconnecting
    → ((drained c).state ≡ disconnecting)
      × (half_closes (drained c).notices ≡ half_closes c.notices)
unfolding drained half_closes
drained_disconnecting c h = ground (arith, half_closes-append c.notices (write_complete ∷ []))

advance_disconnecting :
    (n : ℕ) (c : Connection)
    → c.state ≡ disconnecting
    → ((advance n c).state ≡ disconnecting)
      × (half_closes (advance n c).notices ≡ half_closes c.notices)
unfolding advance
advance_disconnecting n c h =
    ground (arith, drained_disconnecting (record c { output_buffer = retrieve n c.output_buffer }))

handle_write_disconnecting :
    (answer : Write) (c : Connection)
    → c.state ≡ disconnecting
    → ((handle_write answer c).0.state ≡ disconnecting)
      × (half_closes (handle_write answer c).0.notices ≡ half_closes c.notices)
unfolding handle_write after_write
handle_write_disconnecting (wrote zero) c h = ground arith
handle_write_disconnecting (wrote (suc n)) c h = ground (arith, advance_disconnecting (suc n) c)
handle_write_disconnecting would_block c h = ground arith
handle_write_disconnecting peer_gone c h = ground arith
handle_write_disconnecting other_error c h = ground arith

write_out_disconnecting :
    (answers : List Write) (c : Connection)
    → c.state ≡ disconnecting
    → half_closes (write_out answers c).notices ≡ half_closes c.notices
unfolding write_out
write_out_disconnecting [] c h = refl
write_out_disconnecting (answer ∷ answers) c h =
    let (still, same) = handle_write_disconnecting answer c h in
    write_out_disconnecting answers (handle_write answer c).0 still ∙ same

-- A `shutdown` while output waits never shuts the socket's write side down, however the output is
-- written afterwards: `handleWrite` tests for `kDisconnected`, and the state is `kDisconnecting`.
pub shutdown_never_half_closes :
    (answers : List Write) (c : Connection)
    → c.state ≡ connected
    → is_writing c.events ≡ true
    → half_closes (write_out answers (shutdown c)).notices ≡ half_closes c.notices
unfolding shutdown
shutdown_never_half_closes answers c up busy =
    let c' : Connection = record c { state = disconnecting } in
    simp (up, busy) (write_out_disconnecting answers c' refl)

told-append : (ms ns : List Notice) → told (ms ++ ns) ≡ told ms + told ns
unfolding told
told-append [] ns = omega arith
told-append (connection_callback ∷ ms) ns = omega (arith, told-append ms ns)
told-append (write_complete ∷ ms) ns = told-append ms ns
told-append (message_callback ∷ ms) ns = told-append ms ns
told-append (shutdown_write ∷ ms) ns = told-append ms ns
told-append (close_callback ∷ ms) ns = told-append ms ns
told-append (removed ∷ ms) ns = told-append ms ns
told-append (high_water n ∷ ms) ns = told-append ms ns

-- A connection that is established and then closed by the peer and destroyed tells its user twice,
-- once for each, and ends disconnected with no events; so does one that is destroyed directly.
close_tells_once :
    (c : Connection)
    → let c1 = connect_established c in
      (told (connect_destroyed (handle_close c1)).notices ≡ told c.notices + 2)
      × (told (connect_destroyed c1).notices ≡ told c.notices + 2)
      × ((connect_destroyed (handle_close c1)).state ≡ disconnected)
      × ((connect_destroyed c1).state ≡ disconnected)
      × ((connect_destroyed (handle_close c1)).events ≡ none_event)
      × ((connect_destroyed c1).events ≡ none_event)
unfolding connect_established connect_destroyed handle_close told
close_tells_once c =
    (simp told-append (omega arith), simp told-append (omega arith), refl, refl, refl, refl)
