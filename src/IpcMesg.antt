-- ===== src/IpcMesg.antt =====
-- `IPCMesg` of src/MPI/ipcmesg.hpp, as it is built with NDEBUG: without the names of types in the
-- buffer, which only tests read. The type of a message is an enumeration of 4 bytes, lowest first. The
-- calls of the queue that sends and receives a buffer are left out.
pub mod RoundTrip
mod Tests
use talpf.Prelude.{
  ℕ, zero, suc, ◌+◌, ◌-◌, ◌*◌, ◌/◌, ◌%◌, Bool, true, false, not, Option, some, none, List, [], ◌∷◌,
  length, get_elem?, set?, ltb, leb, ◌==◌, if◌then◌else◌, size_mod, assert, ◌>>=◌, ◌>>◌,
}
use talpf.MicroMsg.{max_groups, has_next, collect, put_bytes, get_bytes}

pub record IpcMesg : Type 0 where
  pub buffer : List ℕ
  pub size : ℕ
  pub pos : ℕ

-- `sizeof(MsgEnum)`
abbrev pub enum_size : ℕ
enum_size = 4

abbrev pub enum_bytes : ℕ → List ℕ
enum_bytes t = t % 256 ∷ t / 256 % 256 ∷ t / 65536 % 256 ∷ t / 16777216 % 256 ∷ []

abbrev pub enum_of : List ℕ → Option ℕ
enum_of (a ∷ b ∷ c ∷ d ∷ []) = some (a + 256 * b + 65536 * c + 16777216 * d)
enum_of _ = none

-- The constructor.
unfoldable pub construct : List ℕ → ℕ → ℕ → Option IpcMesg
construct buffer size pos =
    assert (leb (pos + enum_size) size)
    >> some (record { buffer = buffer; size = size; pos = pos + enum_size })

-- `writeMsg`, also `ipc::newMsg`
unfoldable pub write_msg : ℕ → List ℕ → ℕ → Option IpcMesg
unfolding construct
write_msg type buffer size =
    assert (leb enum_size size)
    >> (put_bytes (enum_bytes type) 0 buffer >>= λ xs. construct xs size 0)

-- `readMsg`
unfoldable pub read_msg : List ℕ → ℕ → Option IpcMesg
unfolding construct
read_msg buffer size = construct buffer size 0

-- `type()`
unfoldable pub type_of : IpcMesg → Option ℕ
type_of m = get_bytes enum_size 0 m.buffer >>= λ cs. enum_of cs

unfoldable pub rewind : IpcMesg → Option IpcMesg
unfolding construct
rewind m = construct m.buffer m.size 0

unfoldable pub bytes_left : IpcMesg → Option ℕ
bytes_left m =
    assert (leb m.pos m.size) >> (if m.pos == m.size then some 0 else some (m.size - m.pos))

-- The do-loop of `write`, of at most as many rounds.
unfoldable pub write_groups : ℕ → ℕ → ℕ → ℕ → List ℕ → Option (ℕ × List ℕ)
write_groups zero size number i xs = none
write_groups (suc fuel) size number i xs =
    let more : Bool = ltb 0 (number / 128) in
    assert (ltb i size)
    >> (set? xs i (if more then number % 128 + 128 else number % 128) >>= λ ys.
        let rest : Option (ℕ × List ℕ) = write_groups fuel size (number / 128) (suc i) ys in
        if more then rest else some (suc i, ys))

-- `write( id, number )`
unfoldable pub write : ℕ → IpcMesg → Option IpcMesg
unfolding write_groups
write number m = write_groups max_groups m.size number m.pos m.buffer >>= λ p.
    assert (leb p.0 m.size) >> some (record m { buffer = p.1; pos = p.0 })

-- `write( id, bool )`
unfoldable pub write_bool : Bool → IpcMesg → Option IpcMesg
unfolding write
write_bool b m = write (if b then 1 else 0) m

-- `write( id, bytes, size )`
unfoldable pub write_bytes : List ℕ → IpcMesg → Option IpcMesg
write_bytes cs m =
    assert (ltb (length cs) ((m.size + size_mod - m.pos) % size_mod))
    >> (put_bytes cs m.pos m.buffer >>= λ xs.
        assert (leb (m.pos + length cs) m.size)
        >> some (record m { buffer = xs; pos = m.pos + length cs }))

-- The loop of `read` that looks for the last group, among as many bytes.
unfoldable pub find_end : ℕ → ℕ → ℕ → List ℕ → Option ℕ
find_end zero size i xs = none
find_end (suc n) size i xs = get_elem? xs i >>= λ c.
    let rest : Option ℕ = assert (ltb i size) >> find_end n size (suc i) xs in
    if has_next c then rest else some (suc i)

-- `read( id, result )` into a type with so many bits.
unfoldable pub read : ℕ → IpcMesg → Option (ℕ × IpcMesg)
unfolding find_end
read bits m = find_end (length m.buffer - m.pos) m.size m.pos m.buffer >>= λ stop.
    collect bits (stop - m.pos) m.pos m.buffer 0 >>= λ number.
    some (number, record m { pos = stop })

-- `read( id, bool )`
unfoldable pub read_bool : IpcMesg → Option (Bool × IpcMesg)
unfolding read
read_bool m = read 8 m >>= λ p. some (not (p.0 == 0), p.1)

-- `read( id, bytes, size )`
unfoldable pub read_bytes : ℕ → IpcMesg → Option (List ℕ × IpcMesg)
read_bytes size m =
    assert (leb m.pos m.size)
    >> assert (leb size (m.size - m.pos))
    >> (get_bytes size m.pos m.buffer >>= λ cs. some (cs, record m { pos = m.pos + size }))
