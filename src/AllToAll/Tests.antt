-- ===== src/AllToAll/Tests.antt =====
-- A concrete all-to-all, and its theorem at concrete inputs.
use talpf.Prelude.{ℕ, Bool, true, false, Option, some, none, List, [], ◌∷◌}
use talpf.AllToAll.{Outgoing, Exchange, Turn, resting}

-- Five bytes go to process 1, in pieces of four.
abbrev messages : List (Outgoing × Bool)
messages = (record { offset = 20; count = 5; pid = 1; active = false }, true) ∷ []

abbrev started : Exchange
started = record (resting 10) {
  sends = record { offset = 24; count = 1; pid = 1; active = true } ∷ [];
  posted = record { from = 20; bytes = 4; to = 1 } ∷ [];
}

abbrev answers : Option (ℕ × ℕ) → List (ℕ × Bool) → Bool → Turn
answers message ready over = record {
  probed = true;
  found = message;
  counted = true;
  taken = true;
  tested = true;
  indices = ready;
  starts = true;
  asked = true;
  finished = over;
}

abbrev two_turns : List Turn
two_turns = answers (some (2, 3)) ((0, true) ∷ []) false ∷ answers none ((0, true) ∷ []) false ∷ []

abbrev last_turn : Turn
last_turn = answers none [] true
