-- ===== src/Daemon/ProcessMonitor/Policy.antt =====
-- Which exits the time stamps of a command count.
use wslg.Common.{ℕ, ◌≤◌, ◌≡◌, refl, sym, ap, ◌∙◌, List, [], ◌∷◌, ◌++◌, append_assoc}
use wslg.Common.{◌+◌, leb, if◌then◌else◌, arith}
use wslg.Daemon.ProcessMonitor.{recent, add_crash}

-- The time stamps of a command after it exited at these times, one after another.
pub stamps_after : List ℕ → List ℕ → List ℕ
unfolding add_crash
stamps_after stamps [] = stamps
stamps_after stamps (t ∷ ts) = stamps_after (add_crash t stamps) ts

-- The clock does not go back, from `start` on.
pub data Advances : ℕ → List ℕ → Type 0 where
  over : {start : ℕ} → Advances start []
  tick : {start t : ℕ} {ts : List ℕ} → start ≤ t → Advances t ts → Advances start (t ∷ ts)

recent-append : (now : ℕ) (xs ys : List ℕ) → recent now (xs ++ ys) ≡ recent now xs ++ recent now ys
unfolding recent
recent-append now [] ys = refl
recent-append now (x ∷ xs) ys = ground (arith, recent-append now xs ys)

-- What is old stays old.
recent-recent : (t now : ℕ) (xs : List ℕ) → t ≤ now → recent now (recent t xs) ≡ recent now xs
unfolding recent
recent-recent t now [] h = refl
recent-recent t now (x ∷ xs) h = ground (arith, recent-recent t now xs)

-- The last exit, and the exits before it.
pub last_of : ℕ → List ℕ → ℕ
last_of t [] = t
last_of t (u ∷ us) = last_of u us

recent_now : (t : ℕ) → recent t (t ∷ []) ≡ t ∷ []
unfolding recent
recent_now t = ground arith

stamps_after_from :
    (seen : List ℕ) (t : ℕ) (ts : List ℕ)
    → Advances t ts
    → stamps_after (add_crash t seen) ts ≡ recent (last_of t ts) (seen ++ (t ∷ ts))
unfolding stamps_after last_of add_crash
stamps_after_from seen t [] h =
    sym (recent-append t seen (t ∷ []) ∙ ap (λ (xs : List ℕ). recent t seen ++ xs) (recent_now t))
stamps_after_from seen t (u ∷ us) (tick le h) =
    let older : recent u (recent t seen ++ (t ∷ [])) ≡ recent u (seen ++ (t ∷ [])) =
      recent-append u (recent t seen) (t ∷ [])
      ∙ ap (λ (xs : List ℕ). xs ++ recent u (t ∷ [])) (recent-recent t u seen le)
      ∙ sym (recent-append u seen (t ∷ [])) in
    ap (λ (xs : List ℕ). stamps_after (xs ++ (u ∷ [])) us) older
    ∙ stamps_after_from (seen ++ (t ∷ [])) u us h
    ∙ ap (recent (last_of u us)) (append_assoc seen (t ∷ []) (u ∷ us))

-- The times that are at most 60 seconds before `now`.
pub last_minute : ℕ → List ℕ → List ℕ
last_minute now [] = []
last_minute now (t ∷ ts) =
    let rest = last_minute now ts in if leb now (t + 60) then t ∷ rest else rest

recent-last_minute : (now : ℕ) (xs : List ℕ) → recent now xs ≡ last_minute now xs
unfolding recent last_minute
recent-last_minute now [] = refl
recent-last_minute now (x ∷ xs) = ground (arith, recent-last_minute now xs)

-- While the clock does not go back, the time stamps of a command after a row of exits are the exits
-- t with last <= t + 60, in their order, where last is the time of the last one, that one included.
pub stamps_after-last_minute :
    (t : ℕ) (ts : List ℕ)
    → Advances t ts
    → stamps_after [] (t ∷ ts) ≡ last_minute (last_of t ts) (t ∷ ts)
unfolding stamps_after
stamps_after-last_minute t ts h =
    stamps_after_from [] t ts h ∙ recent-last_minute (last_of t ts) (t ∷ ts)
