-- ===== src/Tests/Connections.antt =====
-- Runs of the connection and the poller.
use high_performance_chatser.Prelude.{
  zero, ℕ, ◌≡◌, refl, Bool, true, false, List, [], ◌∷◌, ◌++◌, window, write_at, none, some, arith,
  eqb, if◌then◌else◌,
}
use high_performance_chatser.Net.Buffer.{new}
use high_performance_chatser.Net.Buffer.Invariant.{new-IsValid}
use high_performance_chatser.Net.Channel.{Events, none_event, enable_reading, enable_writing}
use high_performance_chatser.Net.Channel.Lifetime.{
  Deed, Owner, Callbacks, handle_tied, tied_owner_lives,
}
use high_performance_chatser.Net.Connection.{
  Connection, connected, send, handle_write, wrote, would_block, State, shutdown,
}
use high_performance_chatser.Net.Connection.Stream.{waiting}
use high_performance_chatser.Net.Connection.Output.{
  Step, sending, writable_now, apply, run, accepted, run_stream,
}
use high_performance_chatser.Net.Connection.Closing.{
  half_closes, write_out, shutdown_never_half_closes,
}
use high_performance_chatser.Net.Connection.Remote
use high_performance_chatser.Net.Connection.Remote.{
  Remote, begin_statement, send_away, freed_string_read,
}
use high_performance_chatser.Net.Poller.{
  Epoll, EpollLaws, Poller, updates, polls, run as run_poller, new_poller, AllEmpty,
  never_dispatches,
}

abbrev connection : State → Events → Connection
connection s e = record {
  state = s;
  events = e;
  input_buffer = new 1024;
  output_buffer = new 1024;
  high_water_mark = 67108864;
  has_write_complete = true;
  has_high_water = false;
  notices = [];
}

abbrev up : Connection
up = connection connected (enable_reading none_event)

abbrev steps : List Step
steps =
    sending (wrote 1) (1 ∷ 2 ∷ 3 ∷ []) ∷ sending would_block (4 ∷ []) ∷ writable_now (wrote 2) ∷ []

run_stream_example : (run steps up).1 ++ waiting (run steps up).0 ≡ waiting up ++ accepted steps up
unfolding apply send handle_write new window write_at
run_stream_example =
    run_stream steps up (new-IsValid 1024).0
      ((omega arith, omega arith), ((omega arith, tt), (omega arith, tt)))

shutdown_never_half_closes_example :
    half_closes
      (write_out
        (wrote 1 ∷ wrote 2 ∷ [])
        (shutdown (connection connected (enable_writing none_event)))).notices
    ≡ 0
unfolding half_closes
shutdown_never_half_closes_example =
    shutdown_never_half_closes (wrote 1 ∷ wrote 2 ∷ [])
      (connection connected (enable_writing none_event)) refl refl

abbrev member : ℕ → List ℕ → Bool
member fd [] = false
member fd (x ∷ xs) = if eqb fd x then true else member fd xs

abbrev without : ℕ → List ℕ → List ℕ
without fd [] = []
without fd (x ∷ xs) = if eqb fd x then xs else x ∷ without fd xs

-- An epoll instance as the list of its descriptors.
abbrev listed : Epoll
listed = record {
  Set = List ℕ;
  add = λ fd e s. if member fd s then none else some (fd ∷ s);
  remove = λ fd s. if member fd s then some (without fd s) else none;
}

added :
    (fd : ℕ) (e f : Events) (s t : List ℕ) → listed.add fd e s ≡ some t → listed.add fd f t ≡ none
added fd e f s t h = ground arith

listed-EpollLaws : EpollLaws listed
listed-EpollLaws = record { add_twice = added }

never_dispatches_example : AllEmpty (
    run_poller {E = listed}
      (updates 4 (enable_reading none_event) ∷ polls ((4, none_event) ∷ []) ∷ [])
      (new_poller []))
never_dispatches_example =
    never_dispatches listed []
      (updates 4 (enable_reading none_event) ∷ polls ((4, none_event) ∷ []) ∷ [])

abbrev watching : Poller listed
watching = record { epoll = 4 ∷ []; event_list_size = 16; channel_map = [] }

-- Another thread sends two bytes, whose string stands at address 3.
abbrev sent_away : Remote
sent_away = send_away 3 2 (begin_statement 3 (7 ∷ 8 ∷ []) [] up)

freed_string_read_example :
    (s : Remote) × Remote.Reaches 3 (7 ∷ 8 ∷ []) (begin_statement 3 (7 ∷ 8 ∷ []) [] up) s
    × (s.reads_freed ≡ true)
freed_string_read_example = freed_string_read 3 (7 ∷ 8 ∷ []) [] up refl

-- A connection that has hung up with an error: each callback drops a pointer to it.
abbrev drops : Deed
drops = record { change = λ e. none_event; keep = λ n. zero }

abbrev last_pointer : Owner
last_pointer = record {
  events = record { input = false; priority = false; output = false; error = true; hangup = true };
  pointers = 1;
  guarded = false;
  used_freed = false;
}

abbrev all_drop : Callbacks
all_drop = record { close = drops; error = drops; read = drops; write = drops }

tied_owner_lives_example :
    ((handle_tied all_drop last_pointer).used_freed ≡ false)
    × (last_pointer.pointers ≡ 0 → handle_tied all_drop last_pointer ≡ last_pointer)
tied_owner_lives_example = tied_owner_lives all_drop last_pointer refl refl
