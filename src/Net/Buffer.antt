-- ===== src/Net/Buffer.antt =====
-- webserver/Buffer.h and Buffer.cpp: the byte buffer of a connection, with a read and a write index
-- into one vector. `size_t` arithmetic wraps at 2^64.
pub mod Invariant
pub mod Queue
use Prim.Native.Nat.{◌^◌}
use high_performance_chatser.Prelude.{
  ℕ, ◌+◌, ◌-◌, ◌%◌, Bool, List, Option, none, some, Bytes, length, take, drop, replicate, resize,
  write_at, ltb, leb, if◌then◌else◌,
}

abbrev pub add_size : ℕ → ℕ → ℕ
add_size a b = (a + b) % 2 ^ 64

abbrev pub sub_size : ℕ → ℕ → ℕ
sub_size a b = (2 ^ 64 + a - b) % 2 ^ 64

abbrev pub cheap_prepend : ℕ
cheap_prepend = 8

abbrev pub initial_size : ℕ
initial_size = 1024

pub record Buffer : Type 0 where
  pub buffer : Bytes
  pub reader_index : ℕ
  pub writer_index : ℕ

-- The constructor takes a size and does not use it.
unfoldable pub new : ℕ → Buffer
new size = record {
  buffer = replicate (cheap_prepend + initial_size) 0;
  reader_index = cheap_prepend;
  writer_index = cheap_prepend;
}

unfoldable pub readable_bytes : Buffer → ℕ
readable_bytes b = sub_size b.writer_index b.reader_index

unfoldable pub writable_bytes : Buffer → ℕ
writable_bytes b = sub_size (length b.buffer) b.writer_index

unfoldable pub prepend_bytes : Buffer → ℕ
prepend_bytes b = b.reader_index

-- The bytes from `peek()` on, to the end of the vector.
unfoldable pub peek : Buffer → Bytes
peek b = drop b.reader_index b.buffer

unfoldable pub retrieve_all : Buffer → Buffer
retrieve_all b = record b { reader_index = cheap_prepend; writer_index = cheap_prepend }

unfoldable pub retrieve : ℕ → Buffer → Buffer
unfolding readable_bytes retrieve_all
retrieve len b =
    if ltb len (readable_bytes b)
    then record b { reader_index = add_size b.reader_index len }
    else retrieve_all b

-- `string(peek(), len)`, then `retrieve(len)`.
unfoldable pub retrieve_as_string : ℕ → Buffer → Bytes × Buffer
unfolding peek retrieve
retrieve_as_string len b = (take len (peek b), retrieve len b)

unfoldable pub retrieve_all_as_string : Buffer → Bytes × Buffer
unfolding retrieve_as_string
retrieve_all_as_string b = retrieve_as_string (readable_bytes b) b

-- Grows the vector, or moves the unread bytes down to the prepend area.
unfoldable pub make_space : ℕ → Buffer → Buffer
unfolding readable_bytes writable_bytes prepend_bytes peek
make_space len b =
    if ltb (add_size (writable_bytes b) (prepend_bytes b)) (add_size len cheap_prepend)
    then record b { buffer = resize (add_size len b.writer_index) b.buffer }
    else record {
      buffer = write_at cheap_prepend (take (readable_bytes b) (peek b)) b.buffer;
      reader_index = cheap_prepend;
      writer_index = add_size cheap_prepend (readable_bytes b);
    }

unfoldable pub ensure_writable_bytes : ℕ → Buffer → Buffer
unfolding make_space
ensure_writable_bytes len b = if ltb (writable_bytes b) len then make_space len b else b

-- `append(data, len)`, where `len` is the length of the list.
unfoldable pub append : Bytes → Buffer → Buffer
unfolding ensure_writable_bytes
append text b =
    let b' = ensure_writable_bytes (length text) b in
    record b' {
      buffer = write_at b'.writer_index text b'.buffer;
      writer_index = add_size b'.writer_index (length text);
    }

-- What the kernel answers to `readv`: an `errno`, or the bytes that it has placed.
pub data Read : Type 0 where
  failed : ℕ → Read
  got : Bytes → Read

abbrev pub extra_size : ℕ
extra_size = 65536

-- How many bytes the vector of `readv` can take: the second part is used below 64 KB only.
unfoldable pub iov_capacity : Buffer → ℕ
unfolding writable_bytes
iov_capacity b =
    if ltb (writable_bytes b) extra_size then writable_bytes b + extra_size else writable_bytes b

-- The bytes that go to the buffer's own space, which `readv` fills first.
unfoldable pub scatter : Bytes → Buffer → Buffer
unfolding writable_bytes
scatter text b = record b {
  buffer = write_at b.writer_index (take (writable_bytes b) text) b.buffer;
}

-- `readFd`: the number of bytes, or `none` and the saved `errno` for -1.
unfoldable pub read_fd : Read → Buffer → Option ℕ × ℕ × Buffer
unfolding scatter append
read_fd (failed errno) b = (none, errno, b)
read_fd (got text) b =
    if leb (length text) (writable_bytes b)
    then (
      some (length text),
      0,
      record (scatter text b) { writer_index = add_size b.writer_index (length text) },
    )
    else (
      some (length text),
      0,
      append (drop (writable_bytes b) text)
          (record (scatter text b) { writer_index = length b.buffer }),
    )

-- `writeFd` hands the unread bytes to `write`.
unfoldable pub write_fd_bytes : Buffer → Bytes
unfolding readable_bytes peek
write_fd_bytes b = take (readable_bytes b) (peek b)
