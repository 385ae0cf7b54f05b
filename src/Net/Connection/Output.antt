-- ===== src/Net/Connection/Output.antt =====
-- A run of sends and writable events on one connection.
use high_performance_chatser.Prelude.{
  ◌≡◌, ◌∙◌, sym, ap, Bytes, List, [], ◌∷◌, ◌++◌, append-nil, append_assoc, length, if◌then◌else◌,
}
use high_performance_chatser.Net.Buffer.Invariant.{Fits}
use high_performance_chatser.Net.Connection.{Connection, Write, send, handle_write}
use high_performance_chatser.Net.Connection.Stream.{
  waiting, IsSound, Offered, Writes, is_dropped, send_lem, handle_write_lem,
}

-- What happens to the output of a connection: a send, or a call that the socket is writable.
pub data Step : Type 0 where
  sending : Write → Bytes → Step
  writable_now : Write → Step

unfoldable pub apply : Step → Connection → Connection × Bytes
unfolding send handle_write
apply (sending answer message) c = send answer message c
apply (writable_now answer) c = handle_write answer c

-- The connection after the steps, and all that went to the kernel.
unfoldable pub run : List Step → Connection → Connection × Bytes
unfolding apply
run [] c = (c, [])
run (step ∷ steps) c =
    let (c', written) = apply step c in let (c'', more) = run steps c' in (c'', written ++ more)

-- What a step adds to the output.
abbrev pub accepted_now : Step → Connection → Bytes
accepted_now (sending answer message) c = if is_dropped answer c then [] else message
accepted_now (writable_now answer) c = []

unfoldable pub accepted : List Step → Connection → Bytes
unfolding apply is_dropped
accepted [] c = []
accepted (step ∷ steps) c = accepted_now step c ++ accepted steps (apply step c).0

-- The buffer has room for a message, and the kernel takes no more than it is offered.
abbrev pub Allowed : Step → Connection → Type 0
Allowed (sending answer message) c = Fits (length message) c.output_buffer × Offered answer message
Allowed (writable_now answer) c = Offered answer (waiting c)

abbrev pub AllAllowed : List Step → Connection → Type 0
AllAllowed [] c = Unit
AllAllowed (step ∷ steps) c = Allowed step c × AllAllowed steps (apply step c).0

apply-Writes :
    (step : Step) (c : Connection)
    → IsSound c
    → Allowed step c
    → Writes (waiting c ++ accepted_now step c) (apply step c).1 (apply step c).0
unfolding apply
apply-Writes (sending answer message) c v h = send_lem answer message c v h.0 h.1
apply-Writes (writable_now answer) c v h = rw append-nil (handle_write_lem answer c v h)

-- Whatever the kernel answers to each write, as long as it takes no more than it is offered and the
-- buffer has room for each message: what the kernel was given and what still waits in the output
-- buffer are together the bytes that waited before and the accepted messages, in order.
pub run_stream :
    (steps : List Step) (c : Connection)
    → IsSound c
    → AllAllowed steps c
    → (run steps c).1 ++ waiting (run steps c).0 ≡ waiting c ++ accepted steps c
unfolding run accepted
run_stream [] c v h = sym (append-nil (waiting c))
run_stream (step ∷ steps) c v h =
    let w = apply-Writes step c v h.0 in
    let (c', written) = apply step c in
    append_assoc written (run steps c').1 (waiting (run steps c').0)
    ∙ ap (λ q. written ++ q) (run_stream steps c' w.sound h.1)
    ∙ sym (append_assoc written (waiting c') (accepted steps c'))
    ∙ ap (λ q. q ++ accepted steps c') w.stream
    ∙ append_assoc (waiting c) (accepted_now step c) (accepted steps c')
