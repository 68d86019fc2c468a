-- ===== src/Ledger/Histogram.antt =====
-- The first-output histogram (ledger.go, `recordAttemptLocked` and `FirstOutputs`) against its
-- meaning: how many of the waits lie at or below each bound.
use smolllm_server.Base.{
  ℕ, suc, ◌+◌, ◌≤◌, ◌≡◌, refl, ap, ◌∙◌, List, [], ◌∷◌, map, arith, leb, if◌then◌else◌, length, All,
  All-map, Bool-cases, inl, inr,
}
use smolllm_server.Ledger.{new_hist, observe, count_wait, cumulate}
use smolllm_server.Stats.{Hist, first_output_bounds}

-- the histogram after a list of waits, the latest first
unfoldable pub observed : List ℕ → Hist
observed [] = new_hist
observed (w ∷ ws) = observe w (observed ws)

-- how many waits are at most `b`
unfoldable pub at_most : ℕ → List ℕ → ℕ
at_most b [] = 0
at_most b (w ∷ ws) = (if leb w b then 1 else 0) + at_most b ws

-- what a Prometheus histogram reports: one count for each bound, and the number of all waits
unfoldable pub expected : List ℕ → List ℕ → List ℕ
expected [] ws = length ws ∷ []
expected (b ∷ bs) ws = at_most b ws ∷ expected bs ws

unfoldable pub sum_of : List ℕ → ℕ
sum_of [] = 0
sum_of (w ∷ ws) = w + sum_of ws

abbrev Increasing : List ℕ → Type 0
Increasing [] = Unit
Increasing (b ∷ bs) = All (λ c. b ≤ c) bs × Increasing bs

-- one wait added to counts that are cumulative
bump : List ℕ → ℕ → List ℕ → List ℕ
bump bs w [] = []
bump [] w (n ∷ ns) = (n + 1) ∷ ns
bump (b ∷ bs) w (n ∷ ns) = (if leb w b then n + 1 else n) ∷ bump bs w ns

cumulate_suc : (r : ℕ) (cs : List ℕ) → cumulate (r + 1) cs ≡ map (λ n. n + 1) (cumulate r cs)
unfolding cumulate
cumulate_suc r [] = refl
cumulate_suc r (c ∷ cs) =
    let e : r + 1 + c ≡ r + c + 1 = omega arith in rw (e, cumulate_suc (r + c) cs)

bump_all :
    (bs : List ℕ) (w : ℕ) (ns : List ℕ)
    → All (λ b. w ≤ b) bs
    → length ns ≤ length bs + 1
    → bump bs w ns ≡ map (λ n. n + 1) ns
unfolding bump
bump_all bs w [] h k = refl
bump_all [] w (n ∷ []) h k = refl
bump_all [] w (n ∷ m ∷ ns) h k = absurd (omega arith)
bump_all (b ∷ bs) w (n ∷ ns) (p, h) k = ground (arith, bump_all bs w ns h)

length-cumulate : (r : ℕ) (cs : List ℕ) → length (cumulate r cs) ≡ length cs
unfolding cumulate
length-cumulate r [] = refl
length-cumulate r (c ∷ cs) = ap suc (length-cumulate (r + c) cs)

cumulate-count_wait :
    (bs : List ℕ) (w r : ℕ) (cs : List ℕ)
    → Increasing bs
    → length cs ≤ length bs + 1
    → cumulate r (count_wait bs w cs) ≡ bump bs w (cumulate r cs)
unfolding cumulate count_wait bump
cumulate-count_wait bs w r [] h k = refl
cumulate-count_wait [] w r (c ∷ []) h k = ap (λ (n : ℕ). n ∷ []) (omega arith)
cumulate-count_wait [] w r (c ∷ d ∷ cs) h k = absurd (omega arith)
cumulate-count_wait (b ∷ bs) w r (c ∷ cs) (p, h) k = elim (Bool-cases (leb w b)) [
  | inl low ↦
      let above : All (λ x. w ≤ x) bs = All-map (λ x q. ground arith) bs p in
      let e : r + (c + 1) ≡ r + c + 1 = omega arith in
      let all_up =
        bump_all bs w (cumulate (r + c) cs) above (omega (arith, length-cumulate (r + c) cs)) in
      rw (low, e, cumulate_suc (r + c) cs, all_up)
  | inr high ↦ rw (high, cumulate-count_wait bs w (r + c) cs h (omega arith))
]

bump-expected :
    (bs : List ℕ) (w : ℕ) (ws : List ℕ) → bump bs w (expected bs ws) ≡ expected bs (w ∷ ws)
unfolding bump expected at_most
bump-expected [] w ws = ap (λ (n : ℕ). n ∷ []) (omega arith)
bump-expected (b ∷ bs) w ws = ground (arith, bump-expected bs w ws)

pub length-count_wait :
    (bs : List ℕ) (w : ℕ) (cs : List ℕ) → length (count_wait bs w cs) ≡ length cs
unfolding count_wait
length-count_wait bs w [] = refl
length-count_wait [] w (c ∷ cs) = refl
length-count_wait (b ∷ bs) w (c ∷ cs) = ground (arith, length-count_wait bs w cs)

length-observed : (ws : List ℕ) → length (observed ws).counts ≡ 10
unfolding observed observe
length-observed [] = refl
length-observed (w ∷ ws) =
    length-count_wait first_output_bounds w (observed ws).counts ∙ length-observed ws

-- The cumulative counts that `FirstOutputs` reports for a histogram are, bound by bound, the number
-- of waits at or below the bound, and last the number of all waits; `Sum` and `Count` are the sum
-- and the number of the waits.
pub cumulate-observed :
    (ws : List ℕ)
    → (cumulate 0 (observed ws).counts ≡ expected first_output_bounds ws)
      × ((observed ws).sum ≡ sum_of ws)
      × ((observed ws).count ≡ length ws)
unfolding observed observe cumulate expected at_most sum_of
cumulate-observed [] = (refl, refl, refl)
cumulate-observed (w ∷ ws) =
    let ih = cumulate-observed ws in
    (
      cumulate-count_wait first_output_bounds w 0 (observed ws).counts (omega arith)
            (omega (arith, length-observed ws))
          ∙ rw ih.0 (bump-expected first_output_bounds w ws),
      omega (arith, ih.1),
      omega (arith, ih.2),
    )
