-- ===== src/Machine.antt =====
-- Parts of the machine parameters in src/common/machineparams.cpp: the interpolation between the
-- measured block sizes, the vote on how to go on, and the messages of a measurement. The arithmetic
-- of double is a parameter.
pub mod Intervals
mod Tests
use talpf.Prelude.{
  ℕ, zero, suc, ◌+◌, ◌-◌, ◌*◌, ◌%◌, ◌^◌, Bool, not, ◌&&◌, ◌||◌, Option, some, none, List, [], ◌∷◌,
  ◌++◌, length, get_elem?, ltb, ◌==◌, if◌then◌else◌, ◌>>=◌,
}

-- `BLOCK_SIZES`, the first `m_blockSize`.
abbrev pub block_sizes : List ℕ
block_sizes = 1 ∷ 8 ∷ 128 ∷ 1024 ∷ 2 ^ 13 ∷ 2 ^ 17 ∷ 2 ^ 20 ∷ []

-- `std::upper_bound` on a sorted range, as an index: that of the first number above `b`.
unfoldable pub upper_bound : ℕ → List ℕ → ℕ
upper_bound b [] = 0
upper_bound b (x ∷ xs) = let rest : ℕ = suc (upper_bound b xs) in if ltb b x then 0 else rest

-- `m_blockSize[i-1]` and `m_blockSize[i]`
unfoldable pub interval : ℕ → List ℕ → Option (ℕ × ℕ)
unfolding upper_bound
interval b sizes =
    let i : ℕ = upper_bound b sizes in
    if i == 0
    then none
    else (get_elem? sizes (i - 1) >>= λ b1. get_elem? sizes i >>= λ b2. some (b1, b2))

module _ {D : Type 0} (plus minus times divide : D → D → D) (of_size : ℕ → D) where
  -- `getLatency` and `getMessageGap`, from the measured values for the block sizes.
  unfoldable pub get_value : List D → List ℕ → ℕ → Option D
  unfolding interval upper_bound
  get_value values sizes b =
      let i : ℕ = upper_bound b sizes in
      get_elem? values (if ltb 0 i then i - 1 else i) >>= λ l1.
      get_elem? values (if ltb i (length sizes) then i else i - 1) >>= λ l2.
      interval b sizes >>= λ p. some (
        plus l1 (
          divide (times (minus l2 l1) (minus (of_size b) (of_size p.0)))
            (minus (of_size p.1) (of_size p.0))))

-- `ErrorCondition`
pub data ErrorCondition : Type 0 where
  continue stop error : ErrorCondition

abbrev pub is_stop : ErrorCondition → Bool
is_stop continue = Bool.false
is_stop stop = Bool.true
is_stop error = Bool.false

abbrev pub is_error : ErrorCondition → Bool
is_error continue = Bool.false
is_error stop = Bool.false
is_error error = Bool.true

-- The loop of `allgather` that summarises the values.
unfoldable pub summarize : ErrorCondition → List ErrorCondition → ErrorCondition
summarize result [] = result
summarize result (c ∷ cs) =
    let stops : ErrorCondition = summarize stop cs in
    let goes : ErrorCondition = summarize result cs in
    if not (is_error result) && is_stop c then stops else if is_error c then error else goes

-- `allgather`, by whether its three synchronisations succeed, and the values that it then finds.
unfoldable pub allgather : Bool → Bool → Bool → List ErrorCondition → ErrorCondition
unfolding summarize
allgather guards broadcasts protects all =
    if guards
    then if broadcasts
      then (let result : ErrorCondition = summarize continue all in
          if protects then result else error)
      else error
    else error

-- A call of talpf_put or talpf_get: the peer, and the offsets in the slots read and written.
pub data Message : Type 0 where
  puts : ℕ → ℕ → ℕ → Message
  gets : ℕ → ℕ → ℕ → Message

-- The inner loop of `sendMsgs`, from a process on.
unfoldable pub send_row : ℕ → ℕ → ℕ → ℕ → ℕ → ℕ → ℕ → List Message
send_row zero p pid nprocs mode block_size m = []
send_row (suc n) p pid nprocs mode block_size m =
    let i : ℕ = m * nprocs + p in
    let j : ℕ = m * nprocs + pid in
    (if mode == 0 || (mode == 1 && m % 2 == 0)
      then puts p (i * block_size) (j * block_size)
      else gets p (i * block_size) (j * block_size))
    ∷ send_row n (suc p) pid nprocs mode block_size m

-- `sendMsgs`, from a row on.
unfoldable pub send_msgs : ℕ → ℕ → ℕ → ℕ → ℕ → ℕ → List Message
unfolding send_row
send_msgs zero m pid nprocs mode block_size = []
send_msgs (suc n) m pid nprocs mode block_size =
    send_row nprocs 0 pid nprocs mode block_size m ++ send_msgs n (suc m) pid nprocs mode block_size
