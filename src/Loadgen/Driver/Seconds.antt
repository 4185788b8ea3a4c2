-- ===== src/Loadgen/Driver/Seconds.antt =====
-- internal/loadgen/driver.go, `Run`: the goroutine that calls `onSecond`.
-- A tick is the time, from the start of the run, at which the goroutine receives from the ticker; a
-- ticker drops ticks that nobody receives, so that the ticks may be more than a second apart.
use ratelimiter.Base.{ℕ, suc, ◌+◌, List, [], ◌∷◌, leb, if◌then◌else◌}

-- The calls for the seconds from `sec` on. The list of ticks ends where the context does.
unfoldable pub on_seconds {ℓ} : {A : Type ℓ} → (ℕ → A) → (duration sec : ℕ) → List ℕ → List A
on_seconds call duration sec [] = []
on_seconds call duration sec (tick ∷ ticks) =
    let rest = on_seconds call duration (sec + 1) ticks in
    if leb duration tick then [] else call sec ∷ rest

-- The number of ticks before the end of the run.
abbrev pub ticks_before : ℕ → List ℕ → ℕ
ticks_before duration [] = 0
ticks_before duration (tick ∷ ticks) =
    let rest = ticks_before duration ticks in if leb duration tick then 0 else suc rest
