-- ===== src/Net/Connection/Remote.antt =====
-- `TcpConnection::send` in a thread that is not the connection's: the functor that it queues keeps
-- the address of the message and not its bytes. The message is the string that a statement
-- `conn->send(js.dump())` of the chat service builds; it is gone when the statement has ended.
use high_performance_chatser.Prelude.{
  ℕ, ◌≡◌, ◌∙◌, refl, ap, inl, inr, ◌⊎◌, Bool, true, false, Bytes, List, [], ◌∷◌, ◌++◌, none, some,
  Map, lookup, assign, erase, lookup-erase, lookup-assign, nat_eq, eqb_iff, length, take, take_all,
  Option-cases, Bool-cases, arith, if◌then◌else◌,
}
use high_performance_chatser.Net.Connection.{
  connected, is_connected, Connection, Write, send_in_loop,
}

-- Where the thread is that sends: before the call of `send`, behind it, and behind the statement.
pub data Sender : Type 0 where
  calling returned ended : Sender

pub record Remote : Type 0 where
  pub connection : Connection
  pub strings : Map ℕ Bytes  -- the strings that live, by address
  pub functors : List (ℕ × ℕ)  -- the bound `sendInLoop`: address and length
  pub sender : Sender
  pub written : Bytes  -- what the functors have given to the kernel
  pub reads_freed : Bool  -- a functor has read a string that is gone

-- `send`
unfoldable pub send_away : ℕ → ℕ → Remote → Remote
send_away address size s =
    if is_connected s.connection.state
    then record s { functors = s.functors ++ (address, size) ∷ []; sender = returned }
    else record s { sender = returned }

-- The end of the statement.
unfoldable pub end_statement : ℕ → Remote → Remote
unfolding erase
end_statement address s = record s { strings = erase address s.strings; sender = ended }

-- A functor, called in the connection's loop.
unfoldable pub call_send : Write → ℕ → ℕ → Remote → Remote
unfolding send_in_loop lookup
call_send answer address size s = elim (lookup address s.strings) [
  | none ↦ record s { reads_freed = true }
  | some text ↦
      let (c, bytes) = send_in_loop answer (take size text) s.connection in
      record s { connection = c; written = s.written ++ bytes }
]

module _ (address : ℕ) (text : Bytes) where
  -- The statement has built its string at an address that was free.
  unfoldable pub begin_statement : Map ℕ Bytes → Connection → Remote
  unfolding assign
  begin_statement strings c = record {
    connection = c;
    strings = assign address text strings;
    functors = [];
    sender = calling;
    written = [];
    reads_freed = false;
  }

  pub data Step (s : Remote) : Remote → Type 0 where
    sends : s.sender ≡ calling → Step s (send_away address (length text) s)
    ends : s.sender ≡ returned → Step s (end_statement address s)
    -- The loop calls the functor, with some answer of the kernel to its `write`.
    calls :
        (answer : Write) (a n : ℕ) (rest : List (ℕ × ℕ))
        → s.functors ≡ (a, n) ∷ rest
        → Step s (record (call_send answer a n s) { functors = rest })
    -- The loop does something else with the connection.
    changes : (c : Connection) → Step s (record s { connection = c })

  pub data Reaches (start : Remote) : Remote → Type 0 where
    here : Reaches start start
    then_step : {s t : Remote} → Reaches start s → Step s t → Reaches start t

  -- Before the call there is no functor; then there is one at most, that of the statement, and its
  -- string lives until the statement ends.
  abbrev IsBound : Remote → Type 0
  IsBound s =
      ((s.sender ≡ calling) × (s.functors ≡ []) × (lookup address s.strings ≡ some text))
      ⊎ (((s.functors ≡ []) ⊎ (s.functors ≡ (address, length text) ∷ []))
          × (((s.sender ≡ returned) × (lookup address s.strings ≡ some text))
              ⊎ ((s.sender ≡ ended) × (lookup address s.strings ≡ none))))

  -- What a call of the functor leaves alone.
  call_send_lem :
      (answer : Write) (a n : ℕ) (s : Remote)
      → ((call_send answer a n s).sender ≡ s.sender)
        × ((call_send answer a n s).strings ≡ s.strings)
  unfolding call_send
  call_send_lem answer a n s = elim (Option-cases (lookup a s.strings)) [
    | inl gone ↦ rw (gone, call_send) (refl, refl)
    | inr (t, lives) ↦ rw (lives, call_send) (refl, refl)
  ]

  send_away-IsBound :
      (s : Remote) → s.sender ≡ calling → IsBound s → IsBound (send_away address (length text) s)
  unfolding send_away
  send_away-IsBound s e (inl (_, nothing, lives)) =
      elim (Bool-cases (is_connected s.connection.state)) [
        | inl sent ↦
            rw sent
              (inr (inr (ap (λ fs. fs ++ (address, length text) ∷ []) nothing), inl (refl, lives)))
        | inr shut ↦ rw shut (inr (inl nothing, inl (refl, lives)))
      ]
  send_away-IsBound s e (inr (_, inl (other, _))) = absurd (cc)
  send_away-IsBound s e (inr (_, inr (other, _))) = absurd (cc)

  called-IsBound :
      (s : Remote) (answer : Write) (a n : ℕ) (rest : List (ℕ × ℕ))
      → s.functors ≡ (a, n) ∷ rest
      → IsBound s
      → IsBound (record (call_send answer a n s) { functors = rest })
  called-IsBound s answer a n rest e (inl (_, nothing, _)) = absurd (cc)
  called-IsBound s answer a n rest e (inr (inl nothing, _)) = absurd (cc)
  called-IsBound s answer a n rest e (inr (inr one, there)) =
      let (same, kept) = call_send_lem answer a n s in
      let last : rest ≡ [] = cc in
      let kept' = ap (lookup address) kept in
      inr (
        inl last,
        elim there [
          | inl (r, lives) ↦ inl (same ∙ r, kept' ∙ lives)
          | inr (r, gone) ↦ inr (same ∙ r, kept' ∙ gone)
        ],
      )

  step-IsBound : {s t : Remote} → Step s t → IsBound s → IsBound t
  unfolding end_statement
  step-IsBound {s} (sends e) b = send_away-IsBound s e b
  step-IsBound {s} (ends e) (inl (other, _, _)) = absurd (cc)
  step-IsBound {s} (ends e) (inr (one, _)) = inr (
    one,
    inr (
      refl,
      let gone = lookup-erase address address s.strings in
          ground (arith, gone, eqb_iff address address),
    ),
  )
  step-IsBound {s} (calls answer a n rest e) b = called-IsBound s answer a n rest e b
  step-IsBound (changes c) b = b

  reached-IsBound :
      (strings : Map ℕ Bytes) (c : Connection) {s : Remote}
      → Reaches (begin_statement strings c) s
      → IsBound s
  unfolding begin_statement
  reached-IsBound strings c here =
      let there = lookup-assign address address text strings in
      inl (refl, refl, ground (arith, there, eqb_iff address address))
  reached-IsBound strings c (then_step r step) = step-IsBound step (reached-IsBound strings c r)

  -- The connection and the bytes after `sendInLoop`.
  abbrev pub after_send : Write → Bytes → Remote → Remote
  after_send answer message s =
      let (c, bytes) = send_in_loop answer message s.connection in
      record s { connection = c; written = s.written ++ bytes }

  call_send_alive :
      (answer : Write) (s : Remote)
      → lookup address s.strings ≡ some text
      → call_send answer address (length text) s ≡ after_send answer text s
  unfolding call_send
  call_send_alive answer s lives =
      let called : call_send answer address (length text) s
          ≡ after_send answer (take (length text) text) s =
        rw (lives, call_send) refl in
      called ∙ ap (λ t. after_send answer t s) (take_all (length text) text (omega arith))

  call_send_gone :
      (answer : Write) (s : Remote)
      → lookup address s.strings ≡ none
      → call_send answer address (length text) s ≡ record s { reads_freed = true }
  unfolding call_send
  call_send_gone answer s gone = rw (gone, call_send) refl

  pub functor_needs_string :
      (strings : Map ℕ Bytes) (c : Connection) (s : Remote) (answer : Write) (a n : ℕ)
      (rest : List (ℕ × ℕ))
      → Reaches (begin_statement strings c) s
      → s.functors ≡ (a, n) ∷ rest
      → ((s.sender ≡ returned) × (call_send answer a n s ≡ after_send answer text s))
        ⊎ ((s.sender ≡ ended) × (call_send answer a n s ≡ record s { reads_freed = true }))
  functor_needs_string strings c s answer a n rest r e = elim (reached-IsBound strings c r) [
    | inl (_, nothing, _) ↦ absurd (cc)
    | inr (inl nothing, _) ↦ absurd (cc)
    | inr (inr one, there) ↦
        let is_address : a ≡ address = cc in
        let is_length : n ≡ length text = cc in
        let same : call_send answer a n s ≡ call_send answer address (length text) s =
          ap (λ a. call_send answer a n s) is_address
          ∙ ap (λ n. call_send answer address n s) is_length in
        elim there [
          | inl (called, lives) ↦ inl (called, same ∙ call_send_alive answer s lives)
          | inr (over, gone) ↦ inr (over, same ∙ call_send_gone answer s gone)
        ]
  ]

  -- Such a read can happen with every connection that is connected.
  pub freed_string_read :
      (strings : Map ℕ Bytes) (c : Connection)
      → c.state ≡ connected
      → (s : Remote) × Reaches (begin_statement strings c) s × (s.reads_freed ≡ true)
  unfolding begin_statement send_away end_statement call_send
  freed_string_read strings c is_open =
      let start = begin_statement strings c in
      let queued : send_away address (length text) start
          ≡ record start { functors = (address, length text) ∷ []; sender = returned } =
        rw is_open refl in
      let sent = then_step here (sends refl) in
      let over = then_step sent (ends (ap (λ (s : Remote). s.sender) queued)) in
      let waits = ap (λ (s : Remote). s.functors) queued in
      let s = end_statement address (send_away address (length text) start) in
      let read = then_step over (calls Write.would_block address (length text) [] waits) in
      (
        record (call_send Write.would_block address (length text) s) { functors = [] },
        read,
        elim (functor_needs_string strings c s Write.would_block address (length text) [] over
            waits) [
              | inl (called, _) ↦ absurd (cc)
              | inr (_, e) ↦ ap (λ (s : Remote). s.reads_freed) e
            ],
      )
