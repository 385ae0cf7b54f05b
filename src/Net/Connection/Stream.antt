-- ===== src/Net/Connection/Stream.antt =====
-- The output stream of a connection: what goes to the kernel, and what waits in the buffer.
use high_performance_chatser.Prelude.{
  ℕ, zero, suc, ◌≤◌, ◌≡◌, ◌∙◌, sym, refl, ap, subst, inl, inr, Bool, true, false, not, ◌||◌, Bytes,
  [], ◌∷◌, ◌++◌, append-nil, arith, length, take, drop, eqb, Bool-cases, take-append-drop,
  length-take, length-drop, if◌then◌else◌,
}
use high_performance_chatser.Net.Buffer.{readable_bytes, retrieve}
use high_performance_chatser.Net.Buffer.Invariant.{
  IsValid, contents, Fits, length-contents, retrieve-IsValid, append-Appended,
}
use high_performance_chatser.Net.Buffer.Queue.{contents-retrieve, write_fd_bytes_lem}
use high_performance_chatser.Net.Channel.{is_writing}
use high_performance_chatser.Net.Connection.{
  Connection, State, Write, wrote, would_block, peer_gone, other_error, is_connected,
  is_disconnecting, first_write, note_complete, keep_rest, is_idle, write_through, send_in_loop,
  send, drained, advance, taken, after_write, handle_write, shutdown_in_loop,
}

abbrev pub waiting : Connection → Bytes
waiting c = contents c.output_buffer

abbrev pub IsSound : Connection → Type 0
IsSound c = IsValid c.output_buffer

-- The kernel takes no more than it was offered.
abbrev pub Offered : Write → Bytes → Type 0
Offered (wrote n) text = n ≤ length text
Offered would_block text = Unit
Offered peer_gone text = Unit
Offered other_error text = Unit

-- The bytes written by a step, after which `rest` waits.
pub record Writes (before : Bytes) (written : Bytes) (c : Connection) : Type 0 where
  pub sound : IsSound c
  pub stream : written ++ waiting c ≡ before

keep_rest_lem :
    (rest : Bytes) (c : Connection)
    → IsSound c
    → Fits (length rest) c.output_buffer
    → Writes (waiting c ++ rest) [] (keep_rest rest c)
unfolding keep_rest
keep_rest_lem [] c v fits = record { sound = v; stream = sym (append-nil (waiting c)) }
keep_rest_lem (x ∷ rest) c v fits =
    let a = append-Appended (x ∷ rest) v fits in record { sound = a.valid; stream = a.kept }

output-note_complete :
    (answer : Write) (rest : Bytes) (c : Connection)
    → (note_complete answer rest c).output_buffer ≡ c.output_buffer
unfolding note_complete
output-note_complete (wrote n) [] c = refl
output-note_complete (wrote n) (x ∷ rest) c = refl
output-note_complete would_block rest c = refl
output-note_complete peer_gone rest c = refl
output-note_complete other_error rest c = refl

-- The message of a send is dropped: the connection is closing, or the peer is gone.
unfoldable pub is_dropped : Write → Connection → Bool
unfolding is_idle
is_dropped peer_gone c = not (is_connected c.state) || is_idle c
is_dropped _ c = not (is_connected c.state)

written_first :
    (answer : Write) (message : Bytes)
    → Offered answer message
    → (first_write answer message).0 ++ drop (length (first_write answer message).0) message
      ≡ message
unfolding first_write
written_first (wrote n) message h =
    let e : length (take n message) ≡ n = omega (arith, length-take n message) in
    rw e (take-append-drop n message)
written_first would_block message h = refl
written_first peer_gone message h = refl
written_first other_error message h = refl

readable-idle : (c : Connection) → IsSound c → is_idle c ≡ true → waiting c ≡ []
unfolding is_idle
readable-idle c v h = empty_of (waiting c) (ground (arith, length-contents v))
  where
    empty_of : (xs : Bytes) → length xs ≡ 0 → xs ≡ []
    empty_of [] e = refl
    empty_of (x ∷ xs) e = absurd (omega arith)

write_through_lem :
    (answer : Write) (message : Bytes) (c : Connection)
    → IsSound c
    → Fits (length message) c.output_buffer
    → Offered answer message
    → waiting c ≡ []
    → (first_write answer message).1 ≡ false
    → Writes message (write_through answer message c).1 (write_through answer message c).0
unfolding write_through
write_through_lem answer message c v fits offered idle clean =
    let (written, fault) = first_write answer message in
    let rest = drop (length written) message in
    let c' = note_complete answer rest c in
    let same = output-note_complete answer rest c in
    let kept = keep_rest_lem rest c' (subst IsValid (sym same) v) (
      subst (λ b. Fits (length rest) b) (sym same)
        (omega (arith, fits, length-drop (length written) message))) in
    let none_before : waiting c' ≡ [] = ap contents same ∙ idle in
    rw clean (record {
      sound = kept.sound;
      stream =
          ap (λ q. written ++ q) (kept.stream ∙ ap (λ q. q ++ rest) none_before)
          ∙ written_first answer message offered;
    })

send_idle :
    (answer : Write) (message : Bytes) (c : Connection)
    → IsSound c
    → Fits (length message) c.output_buffer
    → Offered answer message
    → is_idle c ≡ true
    → is_connected c.state ≡ true
    → Writes
        (waiting c ++ (if is_dropped answer c then [] else message))
        (write_through answer message c).1
        (write_through answer message c).0
unfolding is_dropped first_write write_through
send_idle (wrote n) message c v fits offered idle up =
    let none_before = readable-idle c v idle in
    rw (up, none_before) (write_through_lem (wrote n) message c v fits offered none_before refl)
send_idle would_block message c v fits offered idle up =
    let none_before = readable-idle c v idle in
    rw (up, none_before) (write_through_lem would_block message c v fits offered none_before refl)
send_idle other_error message c v fits offered idle up =
    let none_before = readable-idle c v idle in
    rw (up, none_before) (write_through_lem other_error message c v fits offered none_before refl)
send_idle peer_gone message c v fits offered idle up =
    rw (up, idle) (record { sound = v; stream = sym (append-nil (waiting c)) })

not_disconnecting : (s : State) → is_connected s ≡ true → is_disconnecting s ≡ false
not_disconnecting s h = ground arith

send_busy :
    (answer : Write) (message : Bytes) (c : Connection)
    → IsSound c
    → Fits (length message) c.output_buffer
    → is_idle c ≡ false
    → is_connected c.state ≡ true
    → Writes (waiting c ++ (if is_dropped answer c then [] else message)) [] (keep_rest message c)
unfolding is_dropped
send_busy peer_gone message c v fits busy up = rw (up, busy) (keep_rest_lem message c v fits)
send_busy (wrote n) message c v fits busy up = rw up (keep_rest_lem message c v fits)
send_busy would_block message c v fits busy up = rw up (keep_rest_lem message c v fits)
send_busy other_error message c v fits busy up = rw up (keep_rest_lem message c v fits)

dropped_of_closed :
    (answer : Write) (c : Connection) → is_connected c.state ≡ false → is_dropped answer c ≡ true
unfolding is_dropped
dropped_of_closed peer_gone c h = rw h
dropped_of_closed (wrote n) c h = rw h
dropped_of_closed would_block c h = rw h
dropped_of_closed other_error c h = rw h

pub send_lem :
    (answer : Write) (message : Bytes) (c : Connection)
    → IsSound c
    → Fits (length message) c.output_buffer
    → Offered answer message
    → Writes
        (waiting c ++ (if is_dropped answer c then [] else message))
        (send answer message c).1
        (send answer message c).0
unfolding send send_in_loop
send_lem answer message c v fits offered = elim (Bool-cases (is_connected c.state)) [
  | inl up ↦ elim (Bool-cases (is_idle c)) [
    | inl idle ↦
        rw (up, not_disconnecting c.state up, idle)
          (send_idle answer message c v fits offered idle up)
    | inr busy ↦
        rw (up, not_disconnecting c.state up, busy) (send_busy answer message c v fits busy up)
  ]
  | inr down ↦
      rw (down, dropped_of_closed answer c down)
        (record { sound = v; stream = sym (append-nil (waiting c)) })
]

output-drained : (c : Connection) → (drained c).output_buffer ≡ c.output_buffer
unfolding drained shutdown_in_loop
output-drained c = ground arith

output-advance : (n : ℕ) (c : Connection) → (advance n c).output_buffer ≡ retrieve n c.output_buffer
unfolding advance
output-advance n c =
    let c' : Connection = record c { output_buffer = retrieve n c.output_buffer } in
    elim (Bool-cases (eqb (readable_bytes c'.output_buffer) 0)) [
      | inl empty ↦ rw empty (output-drained c')
      | inr more ↦ rw more
    ]

pub handle_write_lem :
    (answer : Write) (c : Connection)
    → IsSound c
    → Offered answer (waiting c)
    → Writes (waiting c) (handle_write answer c).1 (handle_write answer c).0
unfolding handle_write after_write taken
handle_write_lem answer c v offered = elim (Bool-cases (is_writing c.events)) [
  | inl ready ↦ simp ready (write_ready answer)
  | inr idle ↦ simp idle (record { sound = v; stream = refl })
]
  where
    write_ready : (a : Write) → Writes (waiting c) (taken a c) (after_write a c)
    write_ready (wrote zero) = record { sound = v; stream = refl }
    write_ready (wrote (suc n)) =
        let same = output-advance (suc n) c in
        record {
          sound = subst IsValid (sym same) (retrieve-IsValid (suc n) v);
          stream = rw (write_fd_bytes_lem v) (
              ap (λ q. take (suc n) (waiting c) ++ q)
                (ap contents same ∙ contents-retrieve (suc n) v)
              ∙ take-append-drop (suc n) (waiting c));
        }
    write_ready would_block = record { sound = v; stream = refl }
    write_ready peer_gone = record { sound = v; stream = refl }
    write_ready other_error = record { sound = v; stream = refl }
