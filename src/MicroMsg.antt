-- ===== src/MicroMsg.antt =====
-- `MicroMsg` of src/common/micromsg.hpp: numbers in groups of seven bits, lowest first, where all but
-- the last have the top bit set. Bytes are numbers below 256; an unsigned type has its number of bits,
-- at most 64.
pub mod Groups
pub mod RoundTrip
mod Tests
use talpf.Prelude.{
  ℕ, zero, suc, ◌+◌, ◌-◌, ◌*◌, ◌/◌, ◌%◌, ◌^◌, Bool, true, false, Option, some, none, List, [], ◌∷◌,
  length, get_elem?, set?, ltb, ◌==◌, if◌then◌else◌, ◌>>=◌, ◌>>◌,
}

pub record MicroMsg : Type 0 where
  pub buffer : List ℕ
  pub pos : ℕ

-- The do-loop of `write`, of at most as many rounds: the position behind, and the buffer.
unfoldable pub write_groups : ℕ → ℕ → ℕ → List ℕ → Option (ℕ × List ℕ)
write_groups zero number i xs = none
write_groups (suc fuel) number i xs =
    let more : Bool = ltb 0 (number / 128) in
    set? xs i (if more then number % 128 + 128 else number % 128) >>= λ ys.
    let rest : Option (ℕ × List ℕ) = write_groups fuel (number / 128) (suc i) ys in
    if more then rest else some (suc i, ys)

-- Ten groups hold 64 bits.
abbrev pub max_groups : ℕ
max_groups = 10

-- `write( number )`
unfoldable pub write : ℕ → MicroMsg → Option MicroMsg
write number m =
    write_groups max_groups number m.pos m.buffer >>= λ p. some (record { buffer = p.1; pos = p.0 })

-- `m_buffer[ i ] & hasNextBlock`
abbrev pub has_next : ℕ → Bool
has_next c = c / 128 % 2 == 1

-- The loop of `read` that looks for the last group, among as many bytes; the position behind it.
unfoldable pub find_end : ℕ → ℕ → List ℕ → Option ℕ
find_end zero i xs = none
find_end (suc n) i xs = get_elem? xs i >>= λ c.
    let rest : Option ℕ = find_end n (suc i) xs in if has_next c then rest else some (suc i)

-- The loop of `read` back over as many groups from `begin` on, in a type with so many bits.
unfoldable pub collect : ℕ → ℕ → ℕ → List ℕ → ℕ → Option ℕ
collect bits zero begin xs result = some result
collect bits (suc n) begin xs result = get_elem? xs (begin + n) >>= λ c.
    collect bits n begin xs ((result * 128 % 2 ^ bits + c % 128) % 2 ^ bits)

-- `read( result )`
unfoldable pub read : ℕ → MicroMsg → Option (ℕ × MicroMsg)
read bits m = find_end (length m.buffer - m.pos) m.pos m.buffer >>= λ stop.
    collect bits (stop - m.pos) m.pos m.buffer 0 >>= λ number.
    some (number, record m { pos = stop })

-- `memcpy` into the buffer.
unfoldable pub put_bytes : List ℕ → ℕ → List ℕ → Option (List ℕ)
put_bytes [] i xs = some xs
put_bytes (c ∷ cs) i xs = set? xs i c >>= λ ys. put_bytes cs (suc i) ys

-- `memcpy` of as many bytes out of the buffer.
unfoldable pub get_bytes : ℕ → ℕ → List ℕ → Option (List ℕ)
get_bytes zero i xs = some []
get_bytes (suc n) i xs = get_elem? xs i >>= λ c. get_bytes n (suc i) xs >>= λ cs. some (c ∷ cs)

-- `write( bytes, size )`
unfoldable pub write_bytes : List ℕ → MicroMsg → Option MicroMsg
write_bytes cs m =
    put_bytes cs m.pos m.buffer >>= λ xs. some (record { buffer = xs; pos = m.pos + length cs })

-- `read( bytes, size )`
unfoldable pub read_bytes : ℕ → MicroMsg → Option (List ℕ × MicroMsg)
read_bytes size m =
    get_bytes size m.pos m.buffer >>= λ cs. some (cs, record m { pos = m.pos + size })

-- `access( x, rd )`: the number that it leaves in `x`.
unfoldable pub access : ℕ → ℕ → Bool → MicroMsg → Option (ℕ × MicroMsg)
unfolding read write
access bits x rd m = if rd then read bits m else (write x m >>= λ w. some (x, w))
