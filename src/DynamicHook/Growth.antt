-- ===== src/DynamicHook/Growth.antt =====
-- How `dynamicHook` of src/MPI/dynamichook.cpp lets one client after another join in.
use talpf.Prelude.{
  ℕ, zero, suc, ◌+◌, ◌-◌, ◌≡◌, refl, ap, ◌∙◌, Bool, true, false, ◌&&◌, some, List, [], ◌∷◌, ◌++◌,
  length, replicate, if◌then◌else◌, arith,
}
use talpf.DynamicHook.{HookResult, gives, hook_exception, waits, fault, and_then}
use talpf.DynamicHook.Joining.{
  MpiCall, comm_accept, comm_connect, intercomm_merge, allreduce_and, comm_split, Sent, is_sent,
  admit, round, serve, follow, hook_server, hook_client,
}

-- Which calls there are, without what the process passes to them.
abbrev pub shape : List MpiCall → List MpiCall
shape [] = []
shape (comm_accept ∷ cs) = comm_accept ∷ shape cs
shape (comm_connect ∷ cs) = comm_connect ∷ shape cs
shape (intercomm_merge b ∷ cs) = intercomm_merge b ∷ shape cs
shape (allreduce_and b ∷ cs) = allreduce_and true ∷ shape cs
shape (comm_split k ∷ cs) = comm_split 0 ∷ shape cs

-- Only the last answer may tell of a failure.
abbrev pub all_but_last : List Bool → Bool
all_but_last [] = true
all_but_last (all ∷ []) = true
all_but_last (all ∷ b ∷ bs) = all && all_but_last (b ∷ bs)

-- Two processes with these calls before they met: both come back, after the same calls since then, or
-- both fail.
abbrev pub Together :
    Bool
    → List MpiCall
    → List MpiCall
    → HookResult (List MpiCall)
    → HookResult (List MpiCall)
    → Type 0
Together true before before' (gives ds) (gives cs) =
    (common : List MpiCall) × (shape ds ≡ common ++ before) × (shape cs ≡ common ++ before')
Together true _ _ _ _ = ⊥
Together false _ _ r q = (r ≡ fault) × (q ≡ fault)

module _ (before before' : List MpiCall) where
  -- One more call that both take part in.
  after-call :
      (pid : ℕ) (b : Bool) (r q : HookResult (List MpiCall))
      → Together b before before' r q
      → Together b before before'
          (and_then r (λ calls. gives (comm_split 0 ∷ calls)))
          (and_then q (λ calls. gives (comm_split pid ∷ calls)))
  after-call pid true (gives ds) (gives cs) (common, h, k) =
      (comm_split 0 ∷ common, ap (◌∷◌ (comm_split 0)) h, ap (◌∷◌ (comm_split 0)) k)
  after-call pid true (gives ds) hook_exception h = h
  after-call pid true (gives ds) waits h = h
  after-call pid true (gives ds) fault h = h
  after-call pid true hook_exception q h = h
  after-call pid true waits q h = h
  after-call pid true fault q h = h
  after-call pid false r q (h, k) = (ground (arith, h), ground (arith, k))

serve-on :
    (s : Sent) (sent : List Sent) (all : Bool) (answers : List Bool) (p : ℕ) (cs : List MpiCall)
    → serve (s ∷ sent) (all ∷ answers) p p cs
      ≡ serve sent answers (suc p) (if all then suc p else p) (admit (is_sent s) all cs)
unfolding serve round
serve-on s sent true answers p cs = ground arith
serve-on s sent false answers p cs = ground arith

follow-on :
    (k : ℕ) (all : Bool) (answers : List Bool) (p : ℕ) (cs : List MpiCall)
    → follow (suc k) (all ∷ answers) p p cs
      ≡ follow k answers (suc p) (if all then suc p else p) (admit true all cs)
unfolding follow round
follow-on k true answers p cs = ground arith
follow-on k false answers p cs = ground arith

-- The ASSERT at the top after a client was lost.
serve-fails :
    (s : Sent) (sent : List Sent) (b : Bool) (answers : List Bool) (p : ℕ) (cs : List MpiCall)
    → serve (s ∷ sent) (b ∷ answers) (suc p) p cs ≡ fault
unfolding serve
serve-fails s sent b answers p cs = ground arith

follow-fails :
    (k : ℕ) (b : Bool) (answers : List Bool) (p : ℕ) (cs : List MpiCall)
    → follow (suc k) (b ∷ answers) (suc p) p cs ≡ fault
unfolding follow
follow-fails k b answers p cs = ground arith

-- The calls of a round.
abbrev due : Bool → List MpiCall → List MpiCall
due true cs = intercomm_merge false ∷ comm_accept ∷ allreduce_and true ∷ cs
due false cs = allreduce_and true ∷ cs

shape-admit :
    (own all : Bool) (cs common before : List MpiCall)
    → shape cs ≡ common ++ before
    → shape (admit own all cs) ≡ due all common ++ before
unfolding admit
shape-admit own true cs common before h =
    ap (λ t. intercomm_merge false ∷ comm_accept ∷ allreduce_and true ∷ t) h
shape-admit own false cs common before h = ap (λ t. allreduce_and true ∷ t) h

module _ (before before' : List MpiCall) where
  loops-Together :
      (later : List Bool) (sent : List Sent) (p : ℕ) (cs ds common : List MpiCall)
      → length sent ≡ length later
      → shape cs ≡ common ++ before
      → shape ds ≡ common ++ before'
      → Together
          (all_but_last later)
          before
          before'
          (serve sent later p p cs)
          (follow (length later) later p p ds)
  unfolding serve follow
  loops-Together [] [] p cs ds common e h k = (common, h, k)
  loops-Together [] (s ∷ sent) p cs ds common e h k = absurd (omega (arith, e))
  loops-Together (all ∷ later) [] p cs ds common e h k = absurd (omega (arith, e))
  loops-Together (all ∷ []) (s ∷ t ∷ sent) p cs ds common e h k = absurd (omega (arith, e))
  loops-Together (all ∷ b ∷ bs) (s ∷ []) p cs ds common e h k = absurd (omega (arith, e))
  loops-Together (all ∷ []) (s ∷ []) p cs ds common e h k =
      rw (serve-on s [] all [] p cs, follow-on 0 all [] p ds)
        (
          due all common,
          shape-admit (is_sent s) all cs common before h,
          shape-admit true all ds common before' k,
        )
  loops-Together (true ∷ b ∷ bs) (s ∷ t ∷ sent) p cs ds common e h k =
      rw (serve-on s (t ∷ sent) true (b ∷ bs) p cs, follow-on (length (b ∷ bs)) true (b ∷ bs) p ds)
        (loops-Together (b ∷ bs) (t ∷ sent) (suc p) (admit (is_sent s) true cs) (admit true true ds)
          (due true common) (omega (arith, e)) (shape-admit (is_sent s) true cs common before h)
          (shape-admit true true ds common before' k))
  loops-Together (false ∷ b ∷ bs) (s ∷ t ∷ sent) p cs ds common e h k = (
    serve-on s (t ∷ sent) false (b ∷ bs) p cs
        ∙ serve-fails t sent b bs p (admit (is_sent s) false cs),
    follow-on (length (b ∷ bs)) false (b ∷ bs) p ds
        ∙ follow-fails (length bs) b bs p (admit true false ds),
  )

-- The rounds in which the clients before join.
serve-replicate :
    (j : ℕ) (sent : List Sent) (later : List Bool) (p q : ℕ) (cs : List MpiCall)
    → length sent ≡ j + length later
    → q ≡ j + p
    → (rest : List Sent) × (ds : List MpiCall) × (length rest ≡ length later)
      × (serve sent (replicate j true ++ later) p p cs ≡ serve rest later q q ds)
serve-replicate zero sent later p q cs e h =
    (sent, cs, omega (arith, e), ap (λ k. serve sent later k k cs) (omega (arith, h)))
serve-replicate (suc j) [] later p q cs e h = absurd (omega (arith, e))
serve-replicate (suc j) (s ∷ sent) later p q cs e h =
    let (rest, ds, n, same) =
      serve-replicate j sent later (suc p) q (admit (is_sent s) true cs) (omega (arith, e))
        (omega (arith, h)) in
    (rest, ds, n, serve-on s sent true (replicate j true ++ later) p cs ∙ same)

met :
    (sent : List Sent) (later : List Bool) (p k : ℕ) (cs : List MpiCall)
    → length sent ≡ suc (length later)
    → k ≡ length later
    → (before : List MpiCall) × Together
        (all_but_last later)
        (intercomm_merge false ∷ comm_accept ∷ before)
        (intercomm_merge true ∷ comm_connect ∷ [])
        (serve sent (true ∷ later) p p cs)
        (follow k later (suc p) (suc p) (intercomm_merge true ∷ comm_connect ∷ []))
met [] later p k cs e n = absurd (omega (arith, e))
met (s ∷ sent) later p k cs e n =
    let before : List MpiCall = allreduce_and true ∷ shape cs in
    let merged : List MpiCall = intercomm_merge false ∷ comm_accept ∷ before in
    (
      before,
      rw (n, serve-on s sent true later p cs)
          (loops-Together merged (intercomm_merge true ∷ comm_connect ∷ []) later sent (suc p)
            (admit (is_sent s) true cs) (intercomm_merge true ∷ comm_connect ∷ []) []
            (omega (arith, e)) (shape-admit (is_sent s) true cs [] (shape cs) refl) refl),
    )

-- A client that joins after `j` others, with the number that the server sends. If all later clients
-- join too, but for the last, which may be lost, then the server and this client come back, and from
-- the merge of the two on, both took part in the same collective calls. If one is lost and not the
-- last, then the ASSERT at the top of the loop fails for both in the round after it. Conditions: the
-- server sends to each of its clients, the reductions have the same answer for both, and a merge makes
-- the communicator larger by one process.
pub hook_client-Together :
    (pid s j : ℕ) (sent : List Sent) (later : List Bool)
    → length sent ≡ j + suc (length later)
    → (before : List MpiCall) × Together
        (all_but_last later)
        (intercomm_merge false ∷ comm_accept ∷ before)
        (intercomm_merge true ∷ comm_connect ∷ [])
        (hook_server sent (replicate j true ++ true ∷ later))
        (hook_client pid (suc (length sent)) (gives s) (some (suc j)) (suc (suc j)) later)
unfolding hook_server hook_client
hook_client-Together pid s j sent later e =
    let start : List MpiCall = intercomm_merge true ∷ comm_connect ∷ [] in
    let (rest, ds, n, same) = serve-replicate j sent (true ∷ later) 1 (suc j) [] e (omega arith) in
    let k : ℕ = suc (length sent) - (suc j + 1) in
    let (before, both) = met rest later (suc j) k ds n (omega (arith, e)) in
    let size : suc j + 1 ≡ suc (suc j) = omega arith in
    (
      before,
      rw (same, ap (λ p. follow k later p (suc (suc j)) start) size)
          (after-call (intercomm_merge false ∷ comm_accept ∷ before) start pid (all_but_last later)
            (serve rest (true ∷ later) (suc j) (suc j) ds)
            (follow k later (suc (suc j)) (suc (suc j)) start) both),
    )
