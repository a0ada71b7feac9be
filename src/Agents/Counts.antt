-- ===== src/Agents/Counts.antt =====
-- How many tasks are active, queued and kept after each part of an operation.
use eino_local_assistant.Prelude.{
  ℕ, zero, suc, ◌+◌, ◌-◌, ◌<◌, ◌≡◌, refl, ap, ◌∙◌, Bool, none, some, List, [], ◌∷◌, map, arith,
  if◌then◌else◌, length, count_if, Option-cases, inl, inr,
}
use eino_local_assistant.Agents.Tasks.{
  BackgroundAgentTask, is_queued, active, terminal, start_background_agent, start_next,
  remove_terminal, trim_times, find, replace, cancel_in_all,
}

-- A task is active, queued or at its end, and only one of them.
state_sum :
    (t : BackgroundAgentTask)
    → (if active t then 1 else 0) + (if is_queued t then 1 else 0) + (if terminal t then 1 else 0)
      ≡ 1
unfolding active terminal
state_sum t = ground arith

pub count-sum :
    (ts : List BackgroundAgentTask)
    → count_if active ts + count_if is_queued ts + count_if terminal ts ≡ length ts
count-sum [] = omega arith
count-sum (t ∷ ts) = omega (arith, state_sum t, count-sum ts)

-- To start the first queued task moves one task from the queue to the active ones.
pub start_next-counts :
    (now : ℕ) (ts : List BackgroundAgentTask)
    → 0 < count_if is_queued ts
    → (count_if active (start_next now ts) ≡ count_if active ts + 1)
      × (count_if is_queued (start_next now ts) + 1 ≡ count_if is_queued ts)
unfolding start_next start_background_agent active
start_next-counts now [] h = absurd (omega arith)
start_next-counts now (t ∷ ts) h = ground (arith, start_next-counts now ts)

pub start_next-none :
    (now : ℕ) (ts : List BackgroundAgentTask) → count_if is_queued ts ≡ 0 → start_next now ts ≡ ts
unfolding start_next
start_next-none now [] h = refl
start_next-none now (t ∷ ts) h = ground (arith, start_next-none now ts)

pub length-start_next :
    (now : ℕ) (ts : List BackgroundAgentTask) → length (start_next now ts) ≡ length ts
unfolding start_next
length-start_next now [] = refl
length-start_next now (t ∷ ts) = ground (arith, length-start_next now ts)

-- One pass of the trimming loop removes a task that has ended and no other.
remove_terminal-some :
    (ts us : List BackgroundAgentTask)
    → remove_terminal ts ≡ some us
    → (count_if active us ≡ count_if active ts)
      × (count_if is_queued us ≡ count_if is_queued ts)
      × (length us + 1 ≡ length ts)
unfolding remove_terminal active terminal
remove_terminal-some [] us h = absurd (cc)
remove_terminal-some (t ∷ ts) us h = elim (Option-cases (remove_terminal ts)) [
  | inl n ↦ ground arith
  | inr (vs, n) ↦ ground (arith, remove_terminal-some ts vs n)
]

remove_terminal-none :
    (ts : List BackgroundAgentTask) → remove_terminal ts ≡ none → count_if terminal ts ≡ 0
unfolding remove_terminal
remove_terminal-none [] h = refl
remove_terminal-none (t ∷ ts) h = ground (arith, remove_terminal-none ts)

trim_times-some :
    (n : ℕ) (ts us : List BackgroundAgentTask)
    → remove_terminal ts ≡ some us
    → trim_times (suc n) ts ≡ trim_times n us
unfolding trim_times
trim_times-some n ts us h = ground arith

-- Trimming keeps the live tasks, and removes as many others as it is told or as there are.
pub trim_times-counts :
    (n : ℕ) (ts : List BackgroundAgentTask)
    → (count_if active (trim_times n ts) ≡ count_if active ts)
      × (count_if is_queued (trim_times n ts) ≡ count_if is_queued ts)
      × (count_if terminal (trim_times n ts) ≡ count_if terminal ts - n)
unfolding trim_times
trim_times-counts zero ts = (refl, refl, omega arith)
trim_times-counts (suc n) ts = elim (Option-cases (remove_terminal ts)) [
  | inl h ↦ ground (arith, remove_terminal-none ts h)
  | inr (us, h) ↦
      let (a, q, l) = remove_terminal-some ts us h in
      let (a', q', e) = trim_times-counts n us in
      let one = trim_times-some n ts us h in
      (
        ap (count_if active) one ∙ a' ∙ a,
        ap (count_if is_queued) one ∙ q' ∙ q,
        ap (count_if terminal) one ∙ omega (arith, e, a, q, l, count-sum ts, count-sum us),
      )
]

-- To replace a task moves the counts from the old one to the new one.
pub count_if-replace :
    (p : BackgroundAgentTask → Bool) (id : ℕ) (t u : BackgroundAgentTask)
    (ts : List BackgroundAgentTask)
    → find id ts ≡ some t
    → count_if p (replace id u ts) + (if p t then 1 else 0) ≡ count_if p ts + (if p u then 1 else 0)
count_if-replace p id t u [] h = absurd (cc)
count_if-replace p id t u (v ∷ vs) h = ground (arith, count_if-replace p id t u vs)

pub length-replace :
    (id : ℕ) (u : BackgroundAgentTask) (ts : List BackgroundAgentTask)
    → length (replace id u ts) ≡ length ts
length-replace id u [] = refl
length-replace id u (v ∷ vs) = ground (arith, length-replace id u vs)

pub map-cancel_in_all :
    (now : ℕ) (ts : List BackgroundAgentTask)
    → (count_if active (map (cancel_in_all now) ts) ≡ count_if active ts)
      × (count_if is_queued (map (cancel_in_all now) ts) ≡ 0)
unfolding cancel_in_all active
map-cancel_in_all now [] = (refl, refl)
map-cancel_in_all now (t ∷ ts) = ground (arith, map-cancel_in_all now ts)
