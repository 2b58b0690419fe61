-- ===== src/MessageSort/Blocks.antt =====
-- `MessageSort::Writes` of src/MPI/messagesort.cpp: an array that holds for each block the highest
-- number of a message that wants to write it, one higher so that 0 is no message.
pub mod Paint
pub mod Clear
pub mod Pop
pub mod Drain
use talpf.Prelude.{
  ℕ, zero, suc, ◌+◌, ◌-◌, ◌%◌, ◌^◌, Bool, true, false, Option, some, none, List, [], ◌∷◌, length,
  get_elem?, set?, resize, replicate, resized, ltb, leb, ◌==◌, if◌then◌else◌, size_mod, assert,
  ◌>>=◌, ◌>>◌,
}
use Prim.Native.Nat.{max as max_of, min as min_of}

-- `MsgId` has 32 bits.
abbrev pub id_mod : ℕ
id_mod = 2 ^ 32

-- A message with the blocks that it writes, as `push` takes it and `pop` gives it.
pub record Write : Type 0 where
  pub id : ℕ
  pub start : ℕ
  pub size : ℕ

pub record Writes : Type 0 where
  pub min : ℕ
  pub max : ℕ
  pub memory : List ℕ

-- The range of an array without messages is from `size_t(-1)` to 0.
unfoldable pub construct : ℕ → Writes
construct size = record { min = size_mod - 1; max = 0; memory = replicate size 0 }

-- `Writes::resize`, whose array is always allocated.
unfoldable pub grow : ℕ → Writes → Option Writes
grow size w =
    assert (leb (length w.memory) size) >> some (record w { memory = resized size 0 w.memory })

-- `std::fill` with 0, of as many blocks.
unfoldable pub fill_zero : ℕ → ℕ → List ℕ → Option (List ℕ)
fill_zero zero i xs = some xs
fill_zero (suc n) i xs = set? xs i 0 >>= λ ys. fill_zero n (suc i) ys

unfoldable pub clear : Writes → Option Writes
unfolding fill_zero
clear w =
    (if ltb w.min w.max
      then (let stop : ℕ = (w.max + 1) % size_mod in
          assert (leb stop (length w.memory))
          >> assert (leb w.min (length w.memory))
          >> fill_zero (stop - w.min) w.min w.memory)
      else some w.memory)
    >>= λ xs. some (record { min = size_mod - 1; max = 0; memory = xs })

-- The loop of `push`, by the rounds that are left.
unfoldable pub paint : ℕ → ℕ → ℕ → List ℕ → Option (List ℕ)
paint zero i id xs = some xs
paint (suc n) i id xs = get_elem? xs i >>= λ m.
    (if leb m id then set? xs i ((id + 1) % id_mod) else some xs) >>= λ ys. paint n (suc i) id ys

unfoldable pub push : Write → Writes → Option Writes
unfolding paint
push x w =
    let stop : ℕ = (x.start + x.size) % size_mod in
    assert (leb stop (length w.memory))
    >> (paint (stop - x.start) x.start x.id w.memory >>= λ xs. some (record {
      min = min_of w.min x.start;
      max = max_of w.max ((stop + size_mod - 1) % size_mod);
      memory = xs;
    }))

unfoldable pub test : ℕ → ℕ → Writes → Option Bool
test id start w =
    assert (leb start (length w.memory))
    >> (if start == length w.memory
        then some true
        else (get_elem? w.memory start >>= λ m. some (leb m id)))

-- The do-loop of `pop`, which erases the blocks from `i` on that have the number `m`, with as many
-- blocks behind `i` as the number says: the block where it stops, and the array.
unfoldable pub wipe : ℕ → ℕ → ℕ → List ℕ → Option (ℕ × List ℕ)
wipe zero i m xs = set? xs i 0 >>= λ ys. some (suc i, ys)
wipe (suc n) i m xs = set? xs i 0 >>= λ ys. get_elem? ys (suc i) >>= λ k.
    let rest : Option (ℕ × List ℕ) = wipe n (suc i) m ys in
    if k == m then rest else some (suc i, ys)

-- The loop that skips the blocks without a message, of as many blocks.
unfoldable pub skip : ℕ → ℕ → List ℕ → Option ℕ
skip zero i xs = some i
skip (suc n) i xs = get_elem? xs i >>= λ m.
    let rest : Option ℕ = skip n (suc i) xs in if m == 0 then rest else some i

-- The range that `pop` leaves.
unfoldable pub narrow : ℕ → ℕ → List ℕ → Option Writes
narrow low high xs =
    if ltb high low
    then assert (high == low - 1) >> some (record { min = size_mod - 1; max = 0; memory = xs })
    else some (record { min = low; max = high; memory = xs })

-- `Writes::pop`: the message, if there is one, beside the state.
unfoldable pub pop : Writes → Option (Option Write × Writes)
unfolding wipe skip narrow
pop w =
    if ltb w.max w.min
    then some (none, w)
    else (get_elem? w.memory w.min >>= λ m.
        let id : ℕ = (m + id_mod - 1) % id_mod in
        wipe (w.max - w.min) w.min ((id + 1) % id_mod) w.memory >>= λ p.
        assert (ltb w.max (length w.memory))
        >> (skip (w.max + 1 - p.0) p.0 p.1 >>= λ low. narrow low w.max p.1 >>= λ u.
            some (some (record { id = id; start = w.min; size = p.0 - w.min }), u)))
