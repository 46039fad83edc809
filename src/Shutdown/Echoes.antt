-- ===== src/Shutdown/Echoes.antt =====
-- Which signals of a process flush, abort or are passed over.
use keco.Prelude.{
  ℕ, ◌+◌, ◌≡◌, refl, true, false, none, some, List, [], ◌∷◌, ltb, leb, map, if◌then◌else◌,
  Bool-cases, inl, inr, arith, ap,
}
use keco.Shutdown.{Signal, Action, flush_then_exit, exit, exit_code, is_echo, handle, handle_all}

-- The signals at or after an instant.
unfoldable pub from_instant : ℕ → List (Signal × ℕ) → List Signal
from_instant bound [] = []
from_instant bound ((signal, at) ∷ rest) =
    let more = from_instant bound rest in if leb bound at then signal ∷ more else more

handle_all-from_instant :
    (grace_ms first : ℕ) (rest : List (Signal × ℕ))
    → handle_all grace_ms (some first) rest
      ≡ map (λ (s : Signal). exit (exit_code s)) (from_instant (first + grace_ms) rest)
unfolding handle_all handle is_echo from_instant
handle_all-from_instant grace_ms first [] = refl
handle_all-from_instant grace_ms first ((signal, at) ∷ rest) =
    let more = handle_all-from_instant grace_ms first rest in
    elim (Bool-cases (ltb at (first + grace_ms))) [
      | inl echo ↦
          let late : leb (first + grace_ms) at ≡ false = ground arith in rw (echo, late) more
      | inr after ↦
          let late : leb (first + grace_ms) at ≡ true = ground arith in rw (after, late, more) refl
    ]

-- Of the signals of a process the first alone flushes, and then exits with its code. A signal that
-- comes less than the grace after it does nothing; each that comes later exits at once, with its own
-- code, and none of them flushes again.
pub handle_all_lem :
    (grace_ms : ℕ) (signal : Signal) (at : ℕ) (rest : List (Signal × ℕ))
    → handle_all grace_ms none ((signal, at) ∷ rest)
      ≡ flush_then_exit (exit_code signal)
        ∷ map (λ (s : Signal). exit (exit_code s)) (from_instant (at + grace_ms) rest)
unfolding handle_all handle
handle_all_lem grace_ms signal at rest =
    ap (λ (l : List Action). flush_then_exit (exit_code signal) ∷ l)
      (handle_all-from_instant grace_ms at rest)
