-- ===== src/Messages/Wants.antt =====
-- What is still to be received in `iwaitall` of src/MPI/mpilib.cpp, tag by tag.
use talpf.Prelude.{
  ℕ, zero, suc, ◌+◌, ◌<◌, ◌≡◌, refl, sym, ap, List, [], ◌∷◌, length, get_or, set, size_mod, total,
  ◌==◌, if◌then◌else◌, arith,
}
use talpf.Messages.{Send, Comm}
use talpf.Messages.Pieces.{chunks}

-- One for what is not 0.
abbrev pub flag : ℕ → ℕ
flag k = if k == 0 then 0 else 1

-- What is left to receive with a tag, as MPI_Recv is called for it, but for the source.
abbrev pub expected : ℕ → ℕ × ℕ → Send
expected tag p = record { addr = p.0; size = p.1; dst_pid = 0; tag = tag }

abbrev pub anyone : Send → Send
anyone s = record s { dst_pid = 0 }

-- The sum over the pieces that the messages from a tag on still want, for those of which a number
-- of pieces is to come.
abbrev pub wanted : (Send → ℕ) → ℕ → ℕ → List ℕ → List (ℕ × ℕ) → ℕ
wanted f max_size tag [] ps = 0
wanted f max_size tag (k ∷ ks) [] = 0
wanted f max_size tag (k ∷ ks) (p ∷ ps) =
    (if k == 0 then 0 else total f (chunks max_size (expected tag p)))
    + wanted f max_size (suc tag) ks ps

-- How many pieces the peers have still to send, tag by tag: none once the message is received, and
-- else as many as its bytes make.
pub record Dealt (ks : List ℕ) (n : ℕ) (c : Comm) : Type 0 where
  pub one_each : length ks ≡ length c.irecvs
  pub counted : n ≡ total flag ks
  pub bounded : n < size_mod
  pub right :
      (t : ℕ)
      → t < length ks
      → 0 < get_or ks t 0
      → get_or ks t 0 ≡ length (chunks c.max_mpi_msg_size (expected t (get_or c.irecvs t (0, 0))))

pub set-same : (ps : List (ℕ × ℕ)) (t : ℕ) (d : ℕ × ℕ) → set ps t (get_or ps t d) ≡ ps
set-same [] t d = refl
set-same (p ∷ ps) zero d = refl
set-same (p ∷ ps) (suc t) d = ap (◌∷◌ p) (set-same ps t d)

pub wanted-set :
    (f : Send → ℕ) (max_size t0 t k : ℕ) (q : ℕ × ℕ) (ks : List ℕ) (ps : List (ℕ × ℕ))
    → t < length ks
    → length ks ≡ length ps
    → 0 < get_or ks t 0
    → wanted f max_size t0 (set ks t k) (set ps t q)
        + total f (chunks max_size (expected (t0 + t) (get_or ps t (0, 0))))
      ≡ wanted f max_size t0 ks ps
        + (if k == 0 then 0 else total f (chunks max_size (expected (t0 + t) q)))
wanted-set f max_size t0 t k q [] ps h e pos = absurd (omega arith)
wanted-set f max_size t0 t k q (x ∷ ks) [] h e pos = absurd (omega (arith, e))
wanted-set f max_size t0 zero k q (x ∷ ks) (p ∷ ps) h e pos =
    let here : t0 + 0 ≡ t0 = omega arith in rw here (ground arith)
wanted-set f max_size t0 (suc t) k q (x ∷ ks) (p ∷ ps) h e pos =
    let there : suc t0 + t ≡ t0 + suc t = omega arith in
    rw (sym there) (
      ground
        (arith, wanted-set f max_size (suc t0) t k q ks ps (omega arith) (omega (arith, e)) pos))
