-- ===== src/MemoryTable/Sync.antt =====
-- What sync of src/MPI/memorytable.cpp does to the slots that are new.
use talpf.Prelude.{
  ℕ, suc, ◌≤◌, ◌<◌, ◌≡◌, refl, sym, ap, subst, ◌∙◌, true, false, List, [], ◌∷◌, length, size_mod,
  ◌==◌, returns, arith,
}
use talpf.MemReg.FreeList.{mem}
use talpf.MemReg.Combined
use talpf.MemReg.Combined.{range}
use talpf.MemReg.Combined.Slots.{IsValid}
use talpf.SparseSet
use talpf.SparseSet.{SparseSet, elements}
use talpf.SparseSet.Iterate.{length-elements}
use talpf.SparseSet.Contents
use talpf.SparseSet.Contents.{clear-IsValid}
use talpf.MemoryTable.{MemoryTable, register_all, forget_new, sync, needs_sync}
use talpf.MemoryTable.Slots.{IsTable}
use talpf.MemoryTable.Jobs.{
  Job, slots_of, answers_of, IsReady, IsEntered, AreReady, AreEntered, Enters, register-Enters,
}
use talpf.Verbs.Registration.Counts.{slots_left}

-- A slot that is not in a list is none of its members.
apart : (x k : ℕ) (ks : List ℕ) → mem x (k ∷ ks) ≡ false → (x == k ≡ false) × (mem x ks ≡ false)
unfolding mem
apart x k ks e = ground (arith, e)

-- The slots of other jobs are ready as before.
IsReady-after :
    (j k : Job) (t u : MemoryTable)
    → Enters (j ∷ []) t u
    → (j.slot == k.slot) ≡ false
    → IsReady t k
    → IsReady u k
unfolding mem
IsReady-after j k t u e other r = record {
  found = e.others k.slot r.small (ground (arith, other)) ∙ r.found;
  used = e.used k.slot r.small ∙ r.used;
  even = r.even;
  small = r.small;
  fits = omega (arith, r.fits, e.same_limit);
  taken = r.taken;
  together = r.together;
}

AreReady-after :
    (j : Job) (js : List Job) (t u : MemoryTable)
    → Enters (j ∷ []) t u
    → mem j.slot (slots_of js) ≡ false
    → AreReady t js
    → AreReady u js
AreReady-after j [] t u e other r = tt
AreReady-after j (k ∷ js) t u e other (r, (once, rs)) =
    let (here, there) = apart j.slot k.slot (slots_of js) other in
    (IsReady-after j k t u e here r, (once, AreReady-after j js t u e there rs))

-- What is entered stays so while other slots are registered.
IsEntered-after :
    (j : Job) (js : List Job) (t u : MemoryTable)
    → Enters js t u
    → mem j.slot (slots_of js) ≡ false
    → j.slot < size_mod
    → IsEntered t j
    → IsEntered u j
IsEntered-after j js t u e other small i = record {
  id = i.id;
  numbered = e.others j.slot small other ∙ i.numbered;
  entered = (e.kept i.id i.small i.held).1 ∙ i.entered;
  held = (e.kept i.id i.small i.held).0;
  small = i.small;
}

-- One slot, and then the others.
Enters-cons :
    (j : Job) (js : List Job) (t u w : MemoryTable)
    → Enters (j ∷ []) t u
    → Enters js u w
    → mem j.slot (slots_of js) ≡ false
    → j.slot < size_mod
    → Enters (j ∷ js) t w
unfolding mem
Enters-cons j js t u w e f other small = record {
  valid = f.valid;
  verbs_valid = f.verbs_valid;
  used = λ k h. f.used k h ∙ e.used k h;
  others = λ k h none_of.
      let (here, there) = apart k j.slot (slots_of js) none_of in
      f.others k h there ∙ e.others k h (ground (arith, here));
  kept = λ k h held.
      let (still, same) = e.kept k h held in
      let (at_last, again) = f.kept k h still in (at_last, again ∙ same);
  same_added = f.same_added ∙ e.same_added;
  same_range = f.same_range ∙ e.same_range;
  same_limit = f.same_limit ∙ e.same_limit;
  entered = (IsEntered-after j js u w f other small e.entered.0, f.entered);
}

-- The loop registers all slots, while `IBVerbs` has room for them.
register_all-Enters :
    (js : List Job) (t : MemoryTable)
    → AreReady t js
    → IsValid t.memreg
    → IsValid t.verbs.memreg
    → length js ≤ slots_left t.verbs
    → (u : MemoryTable) × (register_all (answers_of js) (slots_of js) t ≡ returns u) × Enters js t u
unfolding register_all
register_all-Enters [] t r valid verbs_valid room = (
  t,
  refl,
  record {
    valid = valid;
    verbs_valid = verbs_valid;
    used = λ k h. refl;
    others = λ k h e. refl;
    kept = λ k h held. (held, refl);
    same_added = refl;
    same_range = refl;
    same_limit = refl;
    entered = tt;
  },
)
register_all-Enters (j ∷ js) t (r, (once, rs)) valid verbs_valid room =
    let (u, goes, e, one) = register-Enters j t r valid verbs_valid (omega (arith, room)) in
    let (w, more, f) =
      register_all-Enters js u (AreReady-after j js t u e once rs) e.valid e.verbs_valid
        (omega (arith, room, one)) in
    (w, rw goes more, Enters-cons j js t u w e f once r.small)

AreEntered-forget :
    (js : List Job) (u : MemoryTable) → AreEntered u js → AreEntered (forget_new u) js
unfolding forget_new
AreEntered-forget [] u e = tt
AreEntered-forget (j ∷ js) u (e, es) = (
  record { id = e.id; numbered = e.numbered; entered = e.entered; held = e.held; small = e.small },
  AreEntered-forget js u es,
)

-- `sync` of a valid table returns and leaves no slot to be synchronised. Each slot that was new has
-- the number of a slot at `IBVerbs` that holds its region and the registrations of all processes, and
-- the same memory; the other slots are as they were, and the table is valid. Conditions: the new
-- slots are global slots in use, the devices of all processes take their memories, and `IBVerbs` has
-- room for all of them.
pub sync-registers :
    (js : List Job) (t : MemoryTable)
    → IsTable t
    → IsValid t.verbs.memreg
    → elements t.added ≡ slots_of js
    → AreReady t js
    → length js ≤ slots_left t.verbs
    → (u : MemoryTable) × (sync (answers_of js) t ≡ returns u)
      × (needs_sync u ≡ false)
      × AreEntered u js
      × ((k : ℕ)
          → k < size_mod
          → mem k (slots_of js) ≡ false
          → Combined.lookup k u.memreg ≡ Combined.lookup k t.memreg)
      × IsTable u
      × IsValid u.verbs.memreg
unfolding sync needs_sync forget_new SparseSet.is_empty SparseSet.clear
sync-registers [] t v verbs_valid new r room =
    let n : length (elements t.added) ≡ 0 = ap length new in
    let none_new : needs_sync t ≡ false = ground (arith, n, length-elements v.new_slots) in
    (t, rw none_new refl, none_new, tt, (λ k h e. refl), v, verbs_valid)
sync-registers (j ∷ js) t v verbs_valid new r room =
    let n : length (elements t.added) ≡ suc (length (slots_of js)) = ap length new in
    let some_new : needs_sync t ≡ true = ground (arith, n, length-elements v.new_slots) in
    let (u, goes, e) = register_all-Enters (j ∷ js) t r v.slots verbs_valid room in
    let kept : Contents.IsValid u.added = subst Contents.IsValid (sym e.same_added) v.new_slots in
    let cleared : Contents.IsValid (SparseSet.clear u.added) = (clear-IsValid 0 kept).0 in
    (
      forget_new u,
      rw (some_new, new, goes) refl,
      refl,
      AreEntered-forget (j ∷ js) u e.entered,
      e.others,
      record {
        slots = e.valid;
        new_slots = cleared;
        from_zero = ap (λ (s : SparseSet). s.min) e.same_added ∙ v.from_zero;
        spans = omega (arith, v.spans, e.same_range, ap (λ (s : SparseSet). s.max) e.same_added);
      },
      e.verbs_valid,
    )
