-- ===== src/Process.antt =====
-- `Process` of src/MPI/process.hpp and process.cpp, with the macros of src/MPI/trysync.hpp. What the
-- lookups of symbols and the communication library answer is an argument.
pub mod Groups
mod Tests
use talpf.Prelude.{
  ℕ, zero, suc, ◌%◌, Bool, true, false, not, ◌&&◌, ◌||◌, Option, some, none, List, [], ◌∷◌, ltb,
  ◌==◌, if◌then◌else◌, assert, ◌>>=◌, ◌>>◌,
}
use Prim.Native.Nat.{min as min_of}
use talpf.MessageQueue.{ErrorCode, success, out_of_memory, fatal}

-- How the constructor of `Symbol` ends.
pub data Lookup : Type 0 where
  found not_found no_memory : Lookup

-- How a `try` block ends.
pub data Outcome : Type 0 where
  done : Outcome
  thrown_bad_alloc : Outcome
  thrown_other : Outcome

abbrev pub look_up : Lookup → ErrorCode
look_up found = success
look_up not_found = fatal
look_up no_memory = out_of_memory

-- The symbols one after another, until a lookup fails.
unfoldable pub look_up_all : List Lookup → ErrorCode
look_up_all [] = success
look_up_all (found ∷ symbols) = look_up_all symbols
look_up_all (not_found ∷ symbols) = fatal
look_up_all (no_memory ∷ symbols) = out_of_memory

-- `TRYSYNC_RETHROW_END`; `failed` is the answer of `allreduceOr( false )`.
abbrev pub rethrow_end : Bool → Outcome → Outcome
rethrow_end failed done = if failed then thrown_other else done
rethrow_end failed thrown_bad_alloc = thrown_bad_alloc
rethrow_end failed thrown_other = thrown_other

-- `std::max` of two codes, as the C interface numbers them.
abbrev pub worst : ErrorCode → ErrorCode → ErrorCode
worst success e = e
worst out_of_memory success = out_of_memory
worst out_of_memory out_of_memory = out_of_memory
worst out_of_memory fatal = fatal
worst fatal e = fatal

-- `TRYSYNC_END`, with what `allreduceMax` answers for the own status.
abbrev pub trysync_end : (ErrorCode → ErrorCode) → Outcome → ErrorCode → ErrorCode
trysync_end reduce done status = reduce status
trysync_end reduce thrown_bad_alloc status = reduce (worst status out_of_memory)
trysync_end reduce thrown_other status = reduce (worst status fatal)

-- What happens in one call of `broadcastSymbol`, with the two answers of the others.
pub record Exchange : Type 0 where
  pub name : Outcome
  pub name_failed : Bool
  pub look_up : Outcome
  pub look_up_failed : Bool

-- `Process::broadcastSymbol`
unfoldable pub broadcast_symbol : Exchange → Outcome
broadcast_symbol e = elim (rethrow_end e.name_failed e.name) [
  | done ↦ rethrow_end e.look_up_failed e.look_up
  | thrown_bad_alloc ↦ thrown_bad_alloc
  | thrown_other ↦ thrown_other
]

-- The SPMD function and each symbol of the arguments.
unfoldable pub broadcast_all : List Exchange → Outcome
unfolding broadcast_symbol
broadcast_all [] = done
broadcast_all (e ∷ es) =
    let rest : Outcome = broadcast_all es in
    elim (broadcast_symbol e) [
      | done ↦ rest
      | thrown_bad_alloc ↦ thrown_bad_alloc
      | thrown_other ↦ thrown_other
    ]

-- What a `try` block with the two handlers of `exec` leaves in the status.
abbrev pub status_of : Outcome → ErrorCode → ErrorCode
status_of done status = status
status_of thrown_bad_alloc status = out_of_memory
status_of thrown_other status = fatal

-- The part of `exec` for the processes that are requested, from the exchange of symbols on, for
-- which there is memory. `hooked` is how `hook` ends, with its status if it returns. The status of the
-- `TRYSYNC_END` before is overwritten in all cases.
unfoldable pub join_in : List Exchange → Outcome × ErrorCode → ErrorCode
unfolding broadcast_all
join_in es hooked = elim (broadcast_all es) [
  | done ↦ status_of hooked.0 hooked.1
  | thrown_bad_alloc ↦ out_of_memory
  | thrown_other ↦ fatal
]

-- The processes that are requested: the root broadcasts their number, and the others are called with
-- it. `given` says that there is an SPMD function.
unfoldable pub requested : ℕ → ℕ → Bool → ℕ → Option ℕ
requested pid nprocs given p =
    if pid == 0 then assert given >> assert (ltb 0 p) >> some (min_of nprocs p) else some p

abbrev pub in_requested_group : ℕ → ℕ → Bool
in_requested_group r pid = ltb pid r

abbrev pub subgroup_nr : ℕ → ℕ → ℕ
subgroup_nr r pid = pid % r

-- `Process::exec`; a null SPMD function is not looked up.
unfoldable pub exec :
    Bool
    → Option Lookup
    → List Lookup
    → ℕ
    → ℕ
    → ℕ
    → List Exchange
    → Outcome × ErrorCode
    → Option ErrorCode
unfolding look_up_all join_in requested
exec aborted spmd aux pid nprocs p es hooked =
    let first : ErrorCode = elim spmd [ none ↦ success | some s ↦ look_up s ] in
    let given : Bool = elim spmd [ none ↦ false | some s ↦ true ] in
    let rest : ErrorCode = look_up_all aux in
    if aborted then some fatal else elim first [
      | fatal ↦ some fatal
      | out_of_memory ↦ some out_of_memory
      | success ↦ elim rest [
        | fatal ↦ some fatal
        | out_of_memory ↦ some out_of_memory
        | success ↦ requested pid nprocs given p >>= λ r.
            some (if in_requested_group r pid then join_in es hooked else success)
      ]
    ]

-- The constructor: all but the root are slaves.
abbrev pub is_slave : ℕ → Bool
is_slave pid = not (pid == 0)

-- `Process::slave`, with the numbers that the root broadcasts: those that `exec` is called with.
unfoldable pub slave : List ℕ → Option (List ℕ)
slave [] = none
slave (zero ∷ ps) = some []
slave (suc p ∷ ps) = slave ps >>= λ rest. some (suc p ∷ rest)
