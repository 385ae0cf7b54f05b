-- ===== src/Net/Buffer/Queue.antt =====
-- A buffer is a queue of bytes: each operation of Buffer.h and Buffer.cpp against the list of the
-- bytes that are still unread.
use high_performance_chatser.Prelude.{
  true, false, ℕ, ◌+◌, ◌≤◌, ◌<◌, ◌≡◌, ◌∙◌, sym, refl, ap, subst, inl, inr, Bytes, List, [], ◌∷◌,
  ◌++◌, arith, length, take, drop, some, none, ltb, leb, leb→le, Bool-cases, window-write_at,
  window-add, window-empty, length-write_at, append_assoc, length-take, length-drop, take_all,
  drop_all, take-append-drop,
}
use high_performance_chatser.Net.Buffer.{
  Buffer, add_size, cheap_prepend, extra_size, readable_bytes, writable_bytes, retrieve,
  retrieve_all_as_string, append, Read, failed, got, read_fd, scatter, iov_capacity, write_fd_bytes,
}
use high_performance_chatser.Net.Buffer.Invariant.{
  IsValid, contents, Fits, readable, writable, contents-peek, length-contents, retrieve-IsValid,
  Appended, append-Appended,
}

-- `retrieve(len)` drops the oldest `len` bytes, all of them if there are fewer.
pub contents-retrieve :
    {b : Buffer} (n : ℕ) → IsValid b → contents (retrieve n b) ≡ drop n (contents b)
unfolding retrieve
contents-retrieve {b} n v = elim (Bool-cases (ltb n (readable_bytes b))) [
  | inl less ↦ rw less (
      let e : add_size b.reader_index n ≡ b.reader_index + n = ground (arith, readable v, v) in
      rw e (window-add b.reader_index n b.writer_index b.buffer))
  | inr all ↦ rw all (
      window-empty cheap_prepend b.buffer
      ∙ sym (drop_all n (contents b) (ground (arith, length-contents v))))
]

-- `retrieveAllAsString` hands out all unread bytes and leaves none.
pub retrieve_all_as_string_lem :
    {b : Buffer}
    → IsValid b
    → let (text, b') = retrieve_all_as_string b in
      (text ≡ contents b) × (contents b' ≡ []) × IsValid b'
unfolding retrieve_all_as_string
retrieve_all_as_string_lem {b} v = (
  contents-peek v,
  contents-retrieve (readable_bytes b) v
      ∙ drop_all (readable_bytes b) (contents b) (omega (arith, length-contents v)),
  retrieve-IsValid (readable_bytes b) v,
)

-- The part that `readv` has put into the buffer's own space.
scatter-Appended :
    {b : Buffer} (text : Bytes) (w : ℕ)
    → IsValid b
    → w ≡ b.writer_index + length (take (writable_bytes b) text)
    → Appended (take (writable_bytes b) text) b (record (scatter text b) { writer_index = w })
unfolding scatter
scatter-Appended {b} text w v e =
    let part = take (writable_bytes b) text in
    let short = length-take (writable_bytes b) text in
    let kept = length-write_at b.writer_index part b.buffer (omega (arith, short, writable v, v)) in
    record {
      valid = omega (arith, short, writable v, v, kept, e);
      kept = window-write_at b.reader_index b.writer_index w part b.buffer v.ordered v.inside e;
    }

-- What `readFd` leaves when the kernel has placed `text`.
abbrev after_read : Bytes → Buffer → Buffer
after_read text b = (read_fd (got text) b).2

Appended-trans :
    {a b c : Buffer} (xs ys : Bytes) → Appended xs a b → Appended ys b c → Appended (xs ++ ys) a c
Appended-trans {a} xs ys p q = record {
  valid = q.valid;
  kept = q.kept ∙ ap (λ s. s ++ ys) p.kept ∙ append_assoc (contents a) xs ys;
}

read_fd_short :
    {b : Buffer} (text : Bytes)
    → IsValid b
    → leb (length text) (writable_bytes b) ≡ true
    → Appended text b (after_read text b)
unfolding read_fd
read_fd_short {b} text v h =
    let all = take_all (writable_bytes b) text (leb→le _ _ h) in
    let e : add_size b.writer_index (length text)
        ≡ b.writer_index + length (take (writable_bytes b) text) =
      rw all (omega (arith, leb→le _ _ h, writable v, v)) in
    rw (h, after_read)
      (subst
        (λ p.
          Appended p b
            (record (scatter text b) { writer_index = add_size b.writer_index (length text) }))
        all (scatter-Appended text _ v e))

read_fd_long :
    {b : Buffer} (text : Bytes)
    → IsValid b
    → Fits (length text) b
    → leb (length text) (writable_bytes b) ≡ false
    → Appended text b (after_read text b)
unfolding read_fd
read_fd_long {b} text v fits h =
    let w : writable_bytes b < length text = ground arith in
    let here =
      scatter-Appended text (length b.buffer) v
        (omega (arith, w, writable v, v, length-take (writable_bytes b) text)) in
    let more =
      append-Appended (drop (writable_bytes b) text) here.valid
        (omega (arith, w, writable v, v, fits, length-drop (writable_bytes b) text)) in
    rw (h, after_read)
      (subst
        (λ p. Appended p b (
          append (drop (writable_bytes b) text)
            (record (scatter text b) { writer_index = length b.buffer })))
        (take-append-drop (writable_bytes b) text) (Appended-trans _ _ here more))

-- If the kernel delivers a text that fits, and no more than the vector of `readv` takes, `readFd` on
-- a valid buffer appends exactly this text, returns its length and leaves a valid buffer, and what
-- goes through the stack array fits it; an error leaves the buffer as it was.
pub read_fd_lem :
    {b : Buffer} (text : Bytes)
    → IsValid b
    → Fits (length text) b
    → length text ≤ iov_capacity b
    → (contents (read_fd (got text) b).2 ≡ contents b ++ text)
      × IsValid (read_fd (got text) b).2
      × ((read_fd (got text) b).0 ≡ some (length text))
      × (length (drop (writable_bytes b) text) ≤ extra_size)
      × ((errno : ℕ) → read_fd (failed errno) b ≡ (none, errno, b))
unfolding read_fd iov_capacity
read_fd_lem {b} text v fits cap =
    let done : Appended text b (after_read text b) =
      elim (Bool-cases (leb (length text) (writable_bytes b))) [
        | inl short ↦ read_fd_short text v short
        | inr long ↦ read_fd_long text v fits long
      ] in
    (
      done.kept,
      done.valid,
      ground arith,
      ground (arith, length-drop (writable_bytes b) text),
      λ e. refl,
    )

-- `writeFd` offers the kernel exactly the unread bytes.
pub write_fd_bytes_lem : {b : Buffer} → IsValid b → write_fd_bytes b ≡ contents b
unfolding write_fd_bytes
write_fd_bytes_lem v = contents-peek v

-- What a client does with a buffer.
pub data Op : Type 0 where
  append_op : Bytes → Op
  retrieve_op : ℕ → Op
  take_all_op : Op
  read_op : Read → Op

-- The buffer after an operation, and the text that it has handed out.
unfoldable pub apply : Op → Buffer → Bytes × Buffer
apply (append_op text) b = ([], append text b)
apply (retrieve_op n) b = ([], retrieve n b)
apply take_all_op b = retrieve_all_as_string b
apply (read_op r) b = ([], (read_fd r b).2)

unfoldable pub run : List Op → Buffer → List Bytes
unfolding apply
run [] b = []
run (op ∷ ops) b = let (out, b') = apply op b in out ∷ run ops b'

-- The same on the queue of unread bytes.
unfoldable pub apply_queue : Op → Bytes → Bytes × Bytes
apply_queue (append_op text) q = ([], q ++ text)
apply_queue (retrieve_op n) q = ([], drop n q)
apply_queue take_all_op q = (q, [])
apply_queue (read_op (failed e)) q = ([], q)
apply_queue (read_op (got text)) q = ([], q ++ text)

unfoldable pub run_queue : List Op → Bytes → List Bytes
unfolding apply_queue
run_queue [] q = []
run_queue (op ∷ ops) q = let (out, q') = apply_queue op q in out ∷ run_queue ops q'

-- The bytes that an operation adds fit; the kernel keeps to the vector of `readv`.
abbrev pub Allowed : Op → Buffer → Type 0
Allowed (append_op text) b = Fits (length text) b
Allowed (retrieve_op n) b = Unit
Allowed take_all_op b = Unit
Allowed (read_op (failed e)) b = Unit
Allowed (read_op (got text)) b = Fits (length text) b × (length text ≤ iov_capacity b)

abbrev pub AllAllowed : List Op → Buffer → Type 0
AllAllowed [] b = Unit
AllAllowed (op ∷ ops) b = Allowed op b × AllAllowed ops (apply op b).1

-- What one operation promises.
record Step (op : Op) (b : Buffer) : Type 0 where
  valid : IsValid (apply op b).1
  out : (apply op b).0 ≡ (apply_queue op (contents b)).0
  left : contents (apply op b).1 ≡ (apply_queue op (contents b)).1

apply-Step : (op : Op) {b : Buffer} → IsValid b → Allowed op b → Step op b
unfolding apply apply_queue
apply-Step (append_op text) v h =
    let a = append-Appended text v h in record { valid = a.valid; out = refl; left = a.kept }
apply-Step (retrieve_op n) v h = record {
  valid = retrieve-IsValid n v;
  out = refl;
  left = contents-retrieve n v;
}
apply-Step take_all_op v h =
    let (text, none_left, v') = retrieve_all_as_string_lem v in
    record { valid = v'; out = text; left = none_left }
apply-Step (read_op (failed e)) v h =
    unfold read_fd in record { valid = v; out = refl; left = refl }
apply-Step (read_op (got text)) v h =
    let r = read_fd_lem text v h.0 h.1 in record { valid = r.1; out = refl; left = r.0 }

-- If all that is added fits and each read delivers no more than its vector takes, a sequence of
-- operations on a valid buffer hands out what it hands out on the queue of its unread bytes.
pub run_refines :
    (ops : List Op) {b : Buffer}
    → IsValid b
    → AllAllowed ops b
    → run ops b ≡ run_queue ops (contents b)
unfolding run run_queue
run_refines [] v h = refl
run_refines (op ∷ ops) {b} v h =
    let s = apply-Step op v h.0 in
    rw (← s.left, ← s.out) (ap (λ r. (apply op b).0 ∷ r) (run_refines ops s.valid h.1))
