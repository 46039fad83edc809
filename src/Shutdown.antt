-- ===== src/Shutdown.antt =====
-- apps/workers/src/lib/shutdown.ts: the handler of a worker's signals. An instant is a number of
-- milliseconds; the handler returns its state and what it does, in order. The flush that it starts
-- ends later, and the exit after it is `exit_after_flush`.
pub mod Echoes
mod Examples
use keco.Prelude.{ℕ, ◌+◌, Bool, Option, none, some, List, [], ◌∷◌, ◌++◌, ltb, if◌then◌else◌}

pub data Signal : Type 0 where
  sigint sigterm : Signal

unfoldable pub exit_code : Signal → ℕ
exit_code sigint = 130
exit_code sigterm = 143

abbrev pub shutdown_grace_ms : ℕ
shutdown_grace_ms = 1000

pub data Action : Type 0 where
  flush_then_exit exit : ℕ → Action

-- `since_first_ms < graceMs`, where the clock may have gone back
unfoldable pub is_echo : ℕ → ℕ → ℕ → Bool
is_echo grace_ms first at = ltb at (first + grace_ms)

-- One signal, at an instant: the instant of the first signal, and the actions.
unfoldable pub handle : ℕ → Option ℕ → Signal → ℕ → Option ℕ × List Action
unfolding exit_code is_echo
handle grace_ms none signal at = (some at, flush_then_exit (exit_code signal) ∷ [])
handle grace_ms (some first) signal at =
    (some first, if is_echo grace_ms first at then [] else exit (exit_code signal) ∷ [])

-- The signals of a process, in their order.
unfoldable pub handle_all : ℕ → Option ℕ → List (Signal × ℕ) → List Action
unfolding handle
handle_all grace_ms first [] = []
handle_all grace_ms first ((signal, at) ∷ rest) =
    let now = handle grace_ms first signal at in now.1 ++ handle_all grace_ms now.0 rest
