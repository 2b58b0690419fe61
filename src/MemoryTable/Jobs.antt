-- ===== src/MemoryTable/Jobs.antt =====
-- One round of the loop in sync of src/MPI/memorytable.cpp.
use talpf.Prelude.{
  ℕ, suc, ◌≤◌, ◌<◌, ◌≡◌, refl, true, false, some, List, [], ◌∷◌, size_mod, returns, arith,
}
use talpf.MemReg.FreeList.{mem}
use talpf.MemReg.Combined
use talpf.MemReg.Combined.{CombinedMemoryRegister, is_local_slot, range}
use talpf.MemReg.Combined.Slots.{IsValid, is_used}
use talpf.MemReg.Combined.Update.{update-Assigns, Assigns-used, Assigns-same_use, Assigns-kept}
use talpf.MemoryTable.{Memory, MemoryTable, GlobalAnswers, register}
use talpf.Verbs.{Verbs, allreduce_or, allgather}
use talpf.Verbs.Registration.{is_registered, region_of, registration}
use talpf.Verbs.Registration.Slots.{reg_global-Registers}
use talpf.Verbs.Registration.Counts.{slots_left, reg_global-left}

-- A slot that is to be registered, its memory, and the answers for it.
pub record Job : Type 0 where
  pub slot : ℕ
  pub memory : Memory
  pub answers : GlobalAnswers

abbrev pub slots_of : List Job → List ℕ
slots_of [] = []
slots_of (j ∷ js) = j.slot ∷ slots_of js

abbrev pub answers_of : List Job → List GlobalAnswers
answers_of [] = []
answers_of (j ∷ js) = j.answers ∷ answers_of js

-- The slot is a global one in use with the memory, which the devices of all processes take.
pub record IsReady (t : MemoryTable) (j : Job) : Type 0 where
  pub found : Combined.lookup j.slot t.memreg ≡ some j.memory
  pub used : is_used j.slot t.memreg ≡ true
  pub even : is_local_slot j.slot ≡ false
  pub small : j.slot < size_mod
  pub fits : j.memory.size ≤ t.verbs.max_reg_size
  pub taken : is_registered j.memory.size j.answers.region ≡ true
  pub together : j.answers.failed ≡ false

-- The slot has its memory as before, and now the number of a slot at `IBVerbs` that is in use and
-- holds the region and the registrations of all processes.
pub record IsEntered (t : MemoryTable) (j : Job) : Type 0 where
  pub id : ℕ
  pub numbered : Combined.lookup j.slot t.memreg ≡ some (record (j.memory) { slot = id })
  pub entered :
      Combined.lookup id t.verbs.memreg
      ≡ some (record { mr = region_of j.memory.size j.answers.region; glob = j.answers.gathered })
  pub held : is_used id t.verbs.memreg ≡ true
  pub small : id < size_mod

-- Each job's slot is ready, and no slot comes twice.
abbrev pub AreReady : MemoryTable → List Job → Type 0
AreReady t [] = Unit {0}
AreReady t (j ∷ js) = IsReady t j × ((mem j.slot (slots_of js) ≡ false) × AreReady t js)

abbrev pub AreEntered : MemoryTable → List Job → Type 0
AreEntered t [] = Unit {0}
AreEntered t (j ∷ js) = IsEntered t j × AreEntered t js

-- `u` is `t` with the slots of the jobs registered, and with all else as it was.
pub record Enters (js : List Job) (t u : MemoryTable) : Type 0 where
  pub valid : IsValid u.memreg
  pub verbs_valid : IsValid u.verbs.memreg
  pub used : (k : ℕ) → k < size_mod → is_used k u.memreg ≡ is_used k t.memreg
  pub others :
      (k : ℕ)
      → k < size_mod
      → mem k (slots_of js) ≡ false
      → Combined.lookup k u.memreg ≡ Combined.lookup k t.memreg
  pub kept :
      (k : ℕ)
      → k < size_mod
      → is_used k t.verbs.memreg ≡ true
      → (is_used k u.verbs.memreg ≡ true)
        × (Combined.lookup k u.verbs.memreg ≡ Combined.lookup k t.verbs.memreg)
  pub same_added : u.added ≡ t.added
  pub same_range : range u.memreg ≡ range t.memreg
  pub same_limit : u.verbs.max_reg_size ≡ t.verbs.max_reg_size
  pub entered : AreEntered u js

-- One round of the loop.
pub register-Enters :
    (j : Job) (t : MemoryTable)
    → IsReady t j
    → IsValid t.memreg
    → IsValid t.verbs.memreg
    → 1 ≤ slots_left t.verbs
    → (u : MemoryTable) × (register j.answers j.slot t ≡ returns u)
      × Enters (j ∷ []) t u
      × (slots_left t.verbs ≤ suc (slots_left u.verbs))
unfolding register mem
register-Enters j t r valid verbs_valid room =
    let a : GlobalAnswers = j.answers in
    let (id, v, enters, refuses, global, g) =
      reg_global-Registers a.region j.memory.addr j.memory.size t.verbs verbs_valid r.fits r.taken
        a.gathered (omega (arith, room)) in
    let w : Verbs = record (t.verbs) {
      memreg = v;
      calls =
          allgather (registration j.memory.addr j.memory.size (region_of j.memory.size a.region))
          ∷ allreduce_or false
          ∷ t.verbs.calls;
    } in
    let (c, writes, found, assigns) =
      update-Assigns (λ m. record m { slot = id }) j.slot j.memory t.memreg valid r.small r.used
        r.found in
    (
      record t { memreg = c; verbs = w },
      ground (arith, r.even, r.found, r.together, enters, writes),
      record {
        valid = assigns.valid;
        verbs_valid = g.assigns.valid;
        used = Assigns-same_use j.slot t.memreg c r.used assigns;
        others = λ k h apart. assigns.others k h (ground (arith, apart));
        kept = Assigns-kept id t.verbs.memreg v g.unused g.assigns;
        same_added = refl;
        same_range = assigns.same_range;
        same_limit = refl;
        entered = (
          record {
            id = id;
            numbered = found;
            entered = g.found;
            held = Assigns-used id t.verbs.memreg v g.small g.assigns;
            small = g.small;
          },
          tt,
        );
      },
      reg_global-left a.region false a.gathered j.memory.addr j.memory.size t.verbs id w enters,
    )
