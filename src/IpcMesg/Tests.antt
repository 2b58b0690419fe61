-- ===== src/IpcMesg/Tests.antt =====
-- Concrete messages, and the theorem on them at a concrete input.
use talpf.Prelude.{
  ℕ, ◌≤◌, ◌≡◌, refl, some, none, List, [], ◌∷◌, length, get_or, set?, replicate, arith,
}
use talpf.IpcMesg.{IpcMesg, write_msg, read_msg, type_of, write, write_groups, write_bytes, read}
use talpf.IpcMesg.RoundTrip.{read-write_msg}

abbrev twenty : List ℕ
twenty = replicate 20 9

read-write_msg_example :
    (m w r : IpcMesg) × (write_msg 2 twenty 16 ≡ some m)
    × (write 300 m ≡ some w)
    × (read_msg w.buffer 16 ≡ some r)
    × (type_of r ≡ some 2)
    × (read 16 r ≡ some (300, w))
    × (length w.buffer ≡ length twenty)
    × ((j : ℕ) → w.pos ≤ j → get_or w.buffer j 0 ≡ get_or twenty j 0)
read-write_msg_example =
    read-write_msg 16 2 300 twenty 16 (omega arith) (omega arith) (omega arith) (omega arith)
      (omega arith)

-- A number that does not fit is refused, and so are bytes that would fill the buffer.
write_full : write 300 (record { buffer = 1 ∷ 2 ∷ 3 ∷ []; size = 3; pos = 2 }) ≡ none
unfolding write write_groups set?
write_full = refl

write_bytes_full :
    write_bytes (7 ∷ 8 ∷ []) (record { buffer = 1 ∷ 2 ∷ 3 ∷ []; size = 3; pos = 1 }) ≡ none
unfolding write_bytes
write_bytes_full = refl
