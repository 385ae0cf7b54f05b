-- ===== src/Net/Connection.antt =====
-- webserver/TcpConnection.h and TcpConnection.cpp: the output side and the state of a connection.
-- What the kernel answers to a `write` is an argument of each call.
pub mod Stream
pub mod Output
pub mod Closing
pub mod Remote
use high_performance_chatser.Prelude.{
  ℕ, zero, suc, ◌+◌, Bool, true, false, not, ◌&&◌, Bytes, List, [], ◌∷◌, ◌++◌, length, take, drop,
  ltb, leb, eqb, if◌then◌else◌,
}
use high_performance_chatser.Net.Buffer.{
  new, Buffer, readable_bytes, retrieve, append, write_fd_bytes, Read, failed, got, read_fd,
  add_size,
}
use high_performance_chatser.Net.Channel.{
  Events, none_event, enable_reading, enable_writing, disable_writing, is_writing,
}

pub data State : Type 0 where
  disconnected connecting connected disconnecting : State

abbrev pub is_connected : State → Bool
is_connected connected = true
is_connected _ = false

abbrev pub is_disconnecting : State → Bool
is_disconnecting disconnecting = true
is_disconnecting _ = false

abbrev pub is_disconnected : State → Bool
is_disconnected disconnected = true
is_disconnected _ = false

-- What a connection asks of others: functors queued in its loop, callbacks, and system calls.
pub data Notice : Type 0 where
  write_complete message_callback connection_callback close_callback shutdown_write : Notice
  removed : Notice  -- `channel_->remove()`
  high_water : ℕ → Notice

pub record Connection : Type 0 where
  pub state : State
  pub events : Events  -- of its channel
  pub input_buffer : Buffer
  pub output_buffer : Buffer
  pub high_water_mark : ℕ
  pub has_write_complete : Bool  -- `writeCompleteCallback` is set
  pub has_high_water : Bool
  pub notices : List Notice

-- The constructor. The channel's `events` are not initialised.
unfoldable pub new_connection : Events → Connection
unfolding new
new_connection events = record {
  state = connecting;
  events = events;
  input_buffer = new 1024;
  output_buffer = new 1024;
  high_water_mark = 67108864;
  has_write_complete = false;
  has_high_water = false;
  notices = [];
}

-- The kernel's answer to a non-blocking `write`: a count, EWOULDBLOCK, EPIPE or ECONNRESET, or
-- another error.
pub data Write : Type 0 where
  wrote : ℕ → Write
  would_block peer_gone other_error : Write

abbrev pub note_if : Bool → Notice → List Notice → List Notice
note_if true n ns = ns ++ n ∷ []
note_if false n ns = ns

-- The bytes that the first `write` of `sendInLoop` takes, and `fault`.
unfoldable pub first_write : Write → Bytes → Bytes × Bool
first_write (wrote n) message = (take n message, false)
first_write would_block message = ([], false)
first_write peer_gone message = ([], true)
first_write other_error message = ([], false)

-- All of the message was written at once.
unfoldable pub note_complete : Write → Bytes → Connection → Connection
note_complete (wrote n) [] c = record c {
  notices = note_if c.has_write_complete write_complete c.notices;
}
note_complete (wrote n) (x ∷ rest) c = c
note_complete would_block rest c = c
note_complete peer_gone rest c = c
note_complete other_error rest c = c

-- The second half of `sendInLoop`: what is left of the message goes to the output buffer.
unfoldable pub keep_rest : Bytes → Connection → Connection
unfolding readable_bytes append
keep_rest [] c = c
keep_rest (x ∷ rest) c =
    let oldlen = readable_bytes c.output_buffer in
    let newlen = add_size oldlen (length (x ∷ rest)) in
    record c {
      notices =
          note_if
            (leb c.high_water_mark newlen && (ltb oldlen c.high_water_mark && c.has_high_water))
            (high_water newlen) c.notices;
      output_buffer = append (x ∷ rest) c.output_buffer;
      events = enable_writing c.events;
    }

-- A write may be tried at once: no output waits.
unfoldable pub is_idle : Connection → Bool
unfolding readable_bytes
is_idle c = not (is_writing c.events) && eqb (readable_bytes c.output_buffer) 0

-- The first half of `sendInLoop` and then the second: the connection, and what went to the kernel.
unfoldable pub write_through : Write → Bytes → Connection → Connection × Bytes
unfolding first_write note_complete keep_rest
write_through answer message c =
    let (written, fault) = first_write answer message in
    let rest = drop (length written) message in
    let c' = note_complete answer rest c in (if fault then c' else keep_rest rest c', written)

-- `sendInLoop`
unfoldable pub send_in_loop : Write → Bytes → Connection → Connection × Bytes
unfolding is_idle write_through keep_rest
send_in_loop answer message c =
    if is_disconnecting c.state
    then (c, [])
    else if is_idle c
    then write_through answer message c
    else (keep_rest message c, [])

-- `send`, called in the connection's own loop thread.
unfoldable pub send : Write → Bytes → Connection → Connection × Bytes
unfolding send_in_loop
send answer message c = if is_connected c.state then send_in_loop answer message c else (c, [])

-- `connectEstablished`
unfoldable pub connect_established : Connection → Connection
connect_established c = record c {
  state = connected;
  events = enable_reading c.events;
  notices = c.notices ++ connection_callback ∷ [];
}

-- `connectDestroyed`
unfoldable pub connect_destroyed : Connection → Connection
connect_destroyed c =
    if is_connected c.state
    then record c {
      state = disconnected;
      events = none_event;
      notices = c.notices ++ connection_callback ∷ removed ∷ [];
    }
    else record c { notices = c.notices ++ removed ∷ [] }

-- `shutdownInLoop`
unfoldable pub shutdown_in_loop : Connection → Connection
shutdown_in_loop c =
    if not (is_writing c.events) then record c { notices = c.notices ++ shutdown_write ∷ [] } else c

-- `shutdown`, called in the connection's own loop thread.
unfoldable pub shutdown : Connection → Connection
unfolding shutdown_in_loop
shutdown c =
    if is_connected c.state then shutdown_in_loop (record c { state = disconnecting }) else c

-- `handleClose`
unfoldable pub handle_close : Connection → Connection
handle_close c = record c {
  state = disconnected;
  events = none_event;
  notices = c.notices ++ connection_callback ∷ close_callback ∷ [];
}

-- `handleRead`; `handleError` only reads the socket's error.
unfoldable pub handle_read : Read → Connection → Connection
unfolding read_fd handle_close
handle_read (failed errno) c = record c { input_buffer = (read_fd (failed errno) c.input_buffer).2 }
handle_read (got []) c =
    handle_close (record c { input_buffer = (read_fd (got []) c.input_buffer).2 })
handle_read (got (x ∷ text)) c = record c {
  input_buffer = (read_fd (got (x ∷ text)) c.input_buffer).2;
  notices = c.notices ++ message_callback ∷ [];
}

-- The output buffer has run empty.
unfoldable pub drained : Connection → Connection
unfolding shutdown_in_loop
drained c =
    let c' = record c {
      events = disable_writing c.events;
      notices = note_if c.has_write_complete write_complete c.notices;
    } in
    if is_disconnected c.state then shutdown_in_loop c' else c'

-- The part of `handleWrite` that follows a `write` of `n > 0` bytes.
unfoldable pub advance : ℕ → Connection → Connection
unfolding retrieve readable_bytes drained
advance n c =
    let c' = record c { output_buffer = retrieve n c.output_buffer } in
    if eqb (readable_bytes c'.output_buffer) 0 then drained c' else c'

-- What `writeFd` hands over, of which the kernel takes a first part.
unfoldable pub taken : Write → Connection → Bytes
unfolding write_fd_bytes
taken (wrote n) c = take n (write_fd_bytes c.output_buffer)
taken would_block c = []
taken peer_gone c = []
taken other_error c = []

unfoldable pub after_write : Write → Connection → Connection
unfolding advance
after_write (wrote zero) c = c
after_write (wrote (suc n)) c = advance (suc n) c
after_write would_block c = c
after_write peer_gone c = c
after_write other_error c = c

-- `handleWrite`
unfoldable pub handle_write : Write → Connection → Connection × Bytes
unfolding taken after_write
handle_write answer c =
    if is_writing c.events then (after_write answer c, taken answer c) else (c, [])
