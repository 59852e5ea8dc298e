-- ===== src/Watchdog/Rounds.antt =====
-- The watchdog is kicked when, and only when, every expected core has reported.
use rpitos.Prelude.{
  ℕ, ◌+◌, ◌<◌, ◌≡◌, Bool, true, not, ◌==◌, ◌&&◌, ◌||◌, if◌then◌else◌, List, [], ◌∷◌, has,
}
use rpitos.Watchdog.{Gate, is_expected, report}

-- Reports one after the other, from these cores.
abbrev pub reports : List ℕ → Gate → Gate
reports [] g = g
reports (c ∷ cs) g = reports cs (report c g)

-- No core from 0 to 3 has reported in this round.
abbrev pub IsCleared : Gate → Type 0
IsCleared g = (i : ℕ) → i < 4 → (g.core_kicked i == 0) ≡ true

-- Every core of the mask is among those heard in this round.
abbrev pub all_heard : ℕ → List ℕ → Bool
all_heard mask hs =
    (not (is_expected mask 0) || has 0 hs)
    && ((not (is_expected mask 1) || has 1 hs)
        && ((not (is_expected mask 2) || has 2 hs) && (not (is_expected mask 3) || has 3 hs)))

-- How many rounds reports complete, where a round begins afresh when the one before is complete.
abbrev pub rounds : ℕ → List ℕ → List ℕ → ℕ
rounds mask hs [] = 0
rounds mask hs (c ∷ cs) =
    if all_heard mask (c ∷ hs) then 1 + rounds mask [] cs else rounds mask (c ∷ hs) cs

-- The flags say which cores were heard.
abbrev Heard : Gate → List ℕ → Type 0
Heard g hs = (i : ℕ) → i < 4 → (g.core_kicked i == 0) ≡ not (has i hs)
