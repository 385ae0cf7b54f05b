-- ===== src/Net/Buffer/Invariant.antt =====
-- The indices of a buffer stay in order and inside the vector, so no `size_t` sum wraps and no
-- byte is read or written outside.
use Prim.Native.Nat.{◌^◌}
use high_performance_chatser.Prelude.{
  ℕ, ◌+◌, ◌-◌, ◌≤◌, ◌<◌, ◌≡◌, ◌∙◌, refl, ap, inl, inr, Bytes, [], ◌++◌, arith, length, take, ltb,
  Bool-cases, window, length-window, window-resize, window-write_at, window-write_at_self,
  window-empty, length-resize, length-write_at, resize, write_at,
}
use high_performance_chatser.Net.Buffer.{
  Buffer, add_size, cheap_prepend, new, readable_bytes, writable_bytes, peek, retrieve,
  retrieve_all, make_space, ensure_writable_bytes, append,
}

-- `vector` holds fewer than 2^63 bytes.
abbrev pub max_size : ℕ
max_size = 2 ^ 63

pub record IsValid (b : Buffer) : Type 0 where
  pub low : cheap_prepend ≤ b.reader_index
  pub ordered : b.reader_index ≤ b.writer_index
  pub inside : b.writer_index ≤ length b.buffer
  pub small : length b.buffer < max_size

-- The unread bytes, oldest first.
abbrev pub contents : Buffer → Bytes
contents b = window b.reader_index b.writer_index b.buffer

-- `len` more bytes can be stored: the vector would stay below its largest size.
abbrev pub Fits : ℕ → Buffer → Type 0
Fits len b = b.writer_index + len < max_size

pub readable : {b : Buffer} → IsValid b → readable_bytes b ≡ b.writer_index - b.reader_index
unfolding readable_bytes
readable v = omega arith

pub writable : {b : Buffer} → IsValid b → writable_bytes b ≡ length b.buffer - b.writer_index
unfolding writable_bytes
writable v = omega arith

pub length-contents : {b : Buffer} → IsValid b → length (contents b) ≡ readable_bytes b
length-contents {b} v =
    omega (arith, readable v, length-window b.reader_index b.writer_index b.buffer v.inside)

pub contents-peek : {b : Buffer} → IsValid b → take (readable_bytes b) (peek b) ≡ contents b
unfolding peek window
contents-peek {b} v = rw (readable v)

-- A new buffer is valid and empty, with 1024 bytes of space.
pub new-IsValid :
    (size : ℕ)
    → IsValid (new size) × (contents (new size) ≡ []) × (writable_bytes (new size) ≡ 1024)
unfolding new writable_bytes
new-IsValid size = (omega arith, window-empty cheap_prepend _, refl)

retrieve_all-IsValid : {b : Buffer} → IsValid b → IsValid (retrieve_all b)
unfolding retrieve_all
retrieve_all-IsValid v = omega arith

pub retrieve-IsValid : {b : Buffer} (n : ℕ) → IsValid b → IsValid (retrieve n b)
unfolding retrieve
retrieve-IsValid {b} n v = ground (arith, readable v)

-- What `make_space` promises for a request that does not fit behind the write index.
record MadeSpace (len : ℕ) (b b' : Buffer) : Type 0 where
  valid : IsValid b'
  room : b'.writer_index + len ≤ length b'.buffer
  same : contents b' ≡ contents b

make_space-resize :
    {b : Buffer} (len : ℕ)
    → IsValid b
    → Fits len b
    → length b.buffer ≤ add_size len b.writer_index
    → MadeSpace len b (record b { buffer = resize (add_size len b.writer_index) b.buffer })
make_space-resize {b} len v fits grows = record {
  valid = omega (arith, length-resize (add_size len b.writer_index) b.buffer, v);
  room = omega (arith, length-resize (add_size len b.writer_index) b.buffer);
  same = window-resize b.reader_index b.writer_index _ b.buffer v.ordered v.inside grows;
}

make_space-move :
    {b : Buffer} (len : ℕ) (bytes : Bytes)
    → IsValid b
    → bytes ≡ contents b
    → len + cheap_prepend ≤ (length b.buffer - b.writer_index) + b.reader_index
    → MadeSpace len b (record {
      buffer = write_at cheap_prepend bytes b.buffer;
      reader_index = cheap_prepend;
      writer_index = add_size cheap_prepend (readable_bytes b);
    })
make_space-move {b} len bytes v e room =
    let k : length bytes ≡ b.writer_index - b.reader_index =
      ap length e ∙ length-window b.reader_index b.writer_index b.buffer v.inside in
    let kept = length-write_at cheap_prepend bytes b.buffer (omega arith) in
    record {
      valid = omega (arith, k, kept, readable v);
      room = omega (arith, k, kept, readable v);
      same =
          window-write_at_self cheap_prepend _ bytes b.buffer (omega arith)
            (omega (arith, k, readable v))
          ∙ e;
    }

make_space_lem :
    {b : Buffer} (len : ℕ)
    → IsValid b
    → Fits len b
    → length b.buffer < b.writer_index + len
    → MadeSpace len b (make_space len b)
unfolding make_space
make_space_lem {b} len v fits short =
    elim (Bool-cases
      (ltb (add_size (writable_bytes b) b.reader_index) (add_size len cheap_prepend))) [
        | inl grow ↦ rw grow (make_space-resize len v fits (omega arith))
        | inr move ↦
            rw move (make_space-move len _ v (contents-peek v) (ground (arith, writable v)))
      ]

ensure_writable_lem :
    {b : Buffer} (len : ℕ) → IsValid b → Fits len b → MadeSpace len b (ensure_writable_bytes len b)
unfolding ensure_writable_bytes
ensure_writable_lem {b} len v fits = elim (Bool-cases (ltb (writable_bytes b) len)) [
  | inl short ↦ rw short (make_space_lem len v fits (ground (arith, writable v)))
  | inr enough ↦ rw enough (record { valid = v; room = ground (arith, writable v); same = refl })
]

-- What an append promises.
pub record Appended (bytes : Bytes) (b b' : Buffer) : Type 0 where
  pub valid : IsValid b'
  pub kept : contents b' ≡ contents b ++ bytes

write-Appended :
    {b b' : Buffer} (bytes : Bytes)
    → MadeSpace (length bytes) b b'
    → Appended bytes b (record b' {
      buffer = write_at b'.writer_index bytes b'.buffer;
      writer_index = add_size b'.writer_index (length bytes);
    })
write-Appended {b} {b'} bytes m = record {
  valid = omega (arith, length-write_at b'.writer_index bytes b'.buffer m.room, m.valid);
  kept =
      window-write_at b'.reader_index b'.writer_index _ bytes b'.buffer m.valid.ordered
        m.valid.inside (omega (arith, m.valid, m.room))
      ∙ ap (λ p. p ++ bytes) m.same;
}

pub append-Appended :
    {b : Buffer} (bytes : Bytes)
    → IsValid b
    → Fits (length bytes) b
    → Appended bytes b (append bytes b)
unfolding append
append-Appended {b} bytes v fits = write-Appended bytes (ensure_writable_lem (length bytes) v fits)
