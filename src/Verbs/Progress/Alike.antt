-- ===== src/Verbs/Progress/Alike.antt =====
-- States that a synchronisation of src/MPI/ibverbs.cpp does not tell apart.
use talpf.Prelude.{
  ℕ, ◌≡◌, refl, ◌∙◌, Bool, some, List, [], ◌∷◌, set?, arith, inl, inr, Option-cases, subst,
}
use talpf.Verbs.{Verbs}
use talpf.Verbs.Progress.{receive, release, settle, process_sync_request}
use talpf.Verbs.Progress.Release.{Event, arrives, looks, step, run}

-- `w` is like `v` in all that a synchronisation depends on.
pub record Alike (v w : Verbs) : Type 0 where
  pub recv_counts : v.recv_counts ≡ w.recv_counts
  pub sync_request : v.sync_request ≡ w.sync_request
  pub sync_counter : v.sync_counter ≡ w.sync_counter

module _ (v w : Verbs) (a : Alike v w) where
  receive-Alike :
      (imm : ℕ) (x : Verbs)
      → receive imm v ≡ some x
      → (y : Verbs) × (receive imm w ≡ some y) × Alike x y
  unfolding receive set?
  receive-Alike imm x e = elim (Option-cases (receive imm w)) [
    | inl out ↦ absurd (ground (arith, a.recv_counts, out, e))
    | inr (y, goes) ↦ (
      y,
      goes,
      record {
        recv_counts = ground (arith, a.recv_counts, goes, e);
        sync_request = ground (arith, a.sync_request, goes, e);
        sync_counter = ground (arith, a.sync_counter, goes, e);
      },
    )
  ]

  release-Alike : (x : Verbs) → release v ≡ some x → (y : Verbs) × (release w ≡ some y) × Alike x y
  unfolding release
  release-Alike x e = elim (Option-cases (release w)) [
    | inl out ↦ absurd (ground (arith, a.sync_request, a.sync_counter, out, e))
    | inr (y, goes) ↦ (
      y,
      goes,
      record {
        recv_counts = ground (arith, a.recv_counts, goes, e);
        sync_request = ground (arith, a.sync_request, goes, e);
        sync_counter = ground (arith, a.sync_counter, goes, e);
      },
    )
  ]

  look-Alike :
      (done : Bool) (x : Verbs)
      → step (looks done) v ≡ some x
      → (y : Verbs) × (step (looks done) w ≡ some y) × Alike x y
  unfolding step process_sync_request settle release set?
  look-Alike done x e = elim (Option-cases (step (looks done) w)) [
    | inl out ↦ absurd (ground (arith, a.recv_counts, a.sync_request, a.sync_counter, out, e))
    | inr (y, goes) ↦ (
      y,
      goes,
      record {
        recv_counts = ground (arith, a.recv_counts, a.sync_request, a.sync_counter, goes, e);
        sync_request = ground (arith, a.recv_counts, a.sync_request, a.sync_counter, goes, e);
        sync_counter = ground (arith, a.recv_counts, a.sync_request, a.sync_counter, goes, e);
      },
    )
  ]

pub Alike-trans : (v w x : Verbs) → Alike v w → Alike w x → Alike v x
Alike-trans v w x a b = record {
  recv_counts = a.recv_counts ∙ b.recv_counts;
  sync_request = a.sync_request ∙ b.sync_request;
  sync_counter = a.sync_counter ∙ b.sync_counter;
}

pub run-Alike :
    (es : List Event) (v w x : Verbs)
    → Alike v w
    → run es v ≡ some x
    → (y : Verbs) × (run es w ≡ some y) × Alike x y
unfolding run step
run-Alike [] v w x a e = (w, refl, subst (λ u. Alike u w) (ground (arith, e)) a)
run-Alike (arrives imm ∷ es) v w x a e = elim (Option-cases (receive imm v)) [
  | inl out ↦ absurd (ground (arith, out, e))
  | inr (u, goes) ↦
      let (y, goes_too, b) = receive-Alike v w a imm u goes in
      let (z, rest, c) = run-Alike es u y x b (ground (arith, goes, e)) in
      (z, ground (arith, goes_too, rest), c)
]
run-Alike (looks done ∷ es) v w x a e = elim (Option-cases (step (looks done) v)) [
  | inl out ↦ absurd (ground (arith, out, e))
  | inr (u, goes) ↦
      let (y, goes_too, b) = look-Alike v w a done u goes in
      let (z, rest, c) = run-Alike es u y x b (ground (arith, goes, e)) in
      (z, ground (arith, goes_too, rest), c)
]
