-- ===== src/Net/Channel.antt =====
-- webserver/Channel.h and Channel.cpp: the epoll events of one descriptor, and the dispatch of the
-- events that `epoll_wait` returned. `events` is one `int` for both, the interest and what happened.
pub mod Lifetime
use high_performance_chatser.Prelude.{Bool, true, false, not, ◌&&◌, ◌||◌, if◌then◌else◌}

-- The bits that the program looks at: EPOLLIN, EPOLLPRI, EPOLLOUT, EPOLLERR, EPOLLHUP.
pub record Events : Type 0 where
  pub input : Bool
  pub priority : Bool
  pub output : Bool
  pub error : Bool
  pub hangup : Bool

-- `kNoneEvent`
abbrev pub none_event : Events
none_event = record {
  input = false;
  priority = false;
  output = false;
  error = false;
  hangup = false;
}

-- `events |= kReadEvent` and so on; each is followed by `update()`.
abbrev pub enable_reading : Events → Events
enable_reading e = record e { input = true; priority = true }

abbrev pub disable_reading : Events → Events
disable_reading e = record e { input = false; priority = false }

abbrev pub enable_writing : Events → Events
enable_writing e = record e { output = true }

abbrev pub disable_writing : Events → Events
disable_writing e = record e { output = false }

abbrev pub is_writing : Events → Bool
is_writing e = e.output

module _ {S : Type 0} (events : S → Events) where
  -- The four tests of `HandleEvent`. Each reads `events` anew, which a callback may have changed.
  unfoldable pub dispatch : (S → S) → (S → S) → (S → S) → (S → S) → S → S
  dispatch close error read write s =
      let s1 = if (events s).hangup && not (events s).input then close s else s in
      let s2 = if (events s1).error then error s1 else s1 in
      let s3 = if (events s2).input || (events s2).priority then read s2 else s2 in
      if (events s3).output then write s3 else s3

  -- `HandleEvent`: a tied channel whose owner is gone does nothing.
  unfoldable pub handle_event :
      (tied owner_alive : Bool) → (S → S) → (S → S) → (S → S) → (S → S) → S → S
  unfolding dispatch
  handle_event tied owner_alive close error read write s =
      if tied && not owner_alive then s else dispatch close error read write s
