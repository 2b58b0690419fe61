-- ===== src/IpcMesg/RoundTrip.antt =====
-- A message of src/MPI/ipcmesg.hpp is read as it was written.
use talpf.Prelude.{
  ℕ, zero, suc, ◌+◌, ◌-◌, ◌/◌, ◌%◌, ◌^◌, ◌≤◌, ◌<◌, ◌≡◌, refl, sym, ap, ◌∙◌, subst, Bool, some, List,
  length, get_or, set?, set, get_elem?-get_or, ltb, if◌then◌else◌, arith, inl, inr,
}
use talpf.MicroMsg.{max_groups, has_next, collect, put_bytes, get_bytes}
use talpf.MicroMsg
use talpf.MicroMsg.Groups.{write_groups-Holds}
use talpf.MicroMsg.RoundTrip.{find_end-stop, collect-value, put_bytes-get_bytes}
use talpf.IpcMesg.{
  IpcMesg, enum_bytes, enum_of, enum_size, construct, write_msg, read_msg, type_of, write_groups,
  write, find_end, read,
}

-- Where there is room, the tests of the loops hold.
write_groups-same :
    (fuel size number i : ℕ) (xs : List ℕ)
    → i + fuel ≤ size
    → write_groups fuel size number i xs ≡ MicroMsg.write_groups fuel number i xs
unfolding write_groups MicroMsg.write_groups set?
write_groups-same zero size number i xs room = refl
write_groups-same (suc fuel) size number i xs room =
    let more : Bool = ltb 0 (number / 128) in
    let c : ℕ = if more then number % 128 + 128 else number % 128 in
    ground (arith, room, write_groups-same fuel size (number / 128) (suc i) (set xs i c))

find_end-same :
    (n size i stop : ℕ) (xs : List ℕ)
    → stop ≤ size
    → MicroMsg.find_end n i xs ≡ some stop
    → (i < stop) × (find_end n size i xs ≡ some stop)
unfolding find_end MicroMsg.find_end
find_end-same zero size i stop xs room e = ground (arith, e)
find_end-same (suc n) size i stop xs room e =
    ground (arith, e, room, find_end-same n size (suc i) stop xs)

enum_of-enum_bytes : (t : ℕ) → t < 2 ^ 32 → enum_of (enum_bytes t) ≡ some t
enum_of-enum_bytes t h = ap some (omega (arith, h))

get_bytes-same :
    (n i : ℕ) (xs ys : List ℕ)
    → length xs ≡ length ys
    → i + n ≤ length xs
    → ((j : ℕ) → j < i + n → get_or ys j 0 ≡ get_or xs j 0)
    → get_bytes n i ys ≡ get_bytes n i xs
unfolding get_bytes
get_bytes-same zero i xs ys l fits same = refl
get_bytes-same (suc n) i xs ys l fits same = ground (
  arith,
  get_elem?-get_or xs i 0 (omega (arith, fits)),
  get_elem?-get_or ys i 0 (omega (arith, fits, l)),
  same i,
  get_bytes-same n (suc i) xs ys l (omega (arith, fits)) (λ j h. same j (omega (arith, h))),
)

-- A message of a type and a number, in a buffer with room for both: what `write` leaves is read as the
-- type, and then as the number, in a type that has room for it.
pub read-write_msg :
    (bits type number : ℕ) (buffer : List ℕ) (size : ℕ)
    → type < 2 ^ 32
    → number < 2 ^ bits
    → number < 2 ^ 64
    → enum_size + max_groups ≤ size
    → size ≤ length buffer
    → (m w r : IpcMesg) × (write_msg type buffer size ≡ some m)
      × (write number m ≡ some w)
      × (read_msg w.buffer size ≡ some r)
      × (type_of r ≡ some type)
      × (read bits r ≡ some (number, w))
      × (length w.buffer ≡ length buffer)
      × ((j : ℕ) → w.pos ≤ j → get_or w.buffer j 0 ≡ get_or buffer j 0)
unfolding write_msg write construct read_msg type_of read
read-write_msg bits type number buffer size small_type small word room inside =
    let (xs, puts, gets, l, same) =
      put_bytes-get_bytes (enum_bytes type) 0 buffer (omega (arith, room, inside)) in
    let (stop, ys, writes, h, few, k, others) =
      write_groups-Holds 9 number 4 xs (omega (arith, word)) (omega (arith, room, inside, l)) in
    let finds : MicroMsg.find_end (length ys - 4) 4 ys ≡ some stop =
      find_end-stop (length ys - 4) 4 stop ys h.some_groups (omega (arith, h.inside)) h.inside
        h.inner h.last in
    let end : stop ≤ size = omega (arith, few, room) in
    let found : find_end (length ys - 4) size 4 ys ≡ some stop =
      (find_end-same (length ys - 4) size 4 stop ys end finds).1 in
    let got : collect bits (stop - 4) 4 ys 0 ≡ some number =
      subst (λ n. collect bits (stop - 4) 4 ys 0 ≡ some n) h.same_value
        (collect-value bits (stop - 4) 4 ys (omega (arith, h.some_groups, h.inside))
          (omega (arith, h.same_value, small))) in
    let wrote : write_groups 10 size number 4 xs ≡ some (stop, ys) =
      write_groups-same 10 size number 4 xs (omega (arith, room)) ∙ writes in
    let front : get_bytes 4 0 ys ≡ some (enum_bytes type) =
      get_bytes-same 4 0 xs ys (sym k) (omega (arith, room, inside, l))
        (λ j less. others j (inl less))
      ∙ gets in
    (
      record { buffer = xs; size = size; pos = 4 },
      record { buffer = ys; size = size; pos = stop },
      record { buffer = ys; size = size; pos = 4 },
      ground (arith, room, puts),
      ground (arith, wrote, end),
      ground (arith, room),
      ground (arith, front, enum_of-enum_bytes type small_type),
      ground (arith, found, got),
      omega (arith, k, l),
      λ j out. others j (inr out) ∙ same j (inr (omega (arith, out, h.some_groups))),
    )
