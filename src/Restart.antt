-- ===== src/Restart.antt =====
-- downloadmgr.go: safeInfiLoop, which keeps one goroutine running its todo and starts another one
-- after a panic. The states and steps are those of one call, with the goroutines that it starts.
pub mod Single
pub mod Recovery
use downloadmgr.Prelude.{
  ℕ, ◌+◌, ◌≡◌, Bool, true, false, List, [], ◌∷◌, some, if◌then◌else◌, get_elem?, remove_at, set,
}

-- The goroutine of the outer loop: at the receive from runChannel, or behind it, at `go`.
pub data Dispatcher : Type 0 where
  receives spawns : Dispatcher

-- A goroutine that it started: in the inner loop, in time.Sleep of the deferred function, or at the
-- send behind it.
pub data Stage : Type 0 where
  loops delays sends : Stage

-- `first_send` says that the caller is at the send that ends safeInfiLoop. `rounds` counts the
-- calls of todo that have returned, `panics` those that have panicked, `reports` those of onPanic.
pub record InfiLoop : Type 0 where
  pub first_send : Bool
  pub dispatcher : Dispatcher
  pub goroutines : List Stage
  pub rounds : ℕ
  pub panics : ℕ
  pub reports : ℕ

abbrev pub safe_infi_loop : InfiLoop
safe_infi_loop = record {
  first_send = true;
  dispatcher = receives;
  goroutines = [];
  rounds = 0;
  panics = 0;
  reports = 0;
}

-- runChannel has no buffer, so a send and the receive are one step. `has_on_panic` says whether
-- onPanic is set; it returns.
pub data Step (has_on_panic : Bool) : InfiLoop → InfiLoop → Type 0 where
  first_sent :
      (s : InfiLoop)
      → s.first_send ≡ true
      → s.dispatcher ≡ receives
      → Step has_on_panic s (record s { first_send = false; dispatcher = spawns })
  spawned :
      (s : InfiLoop)
      → s.dispatcher ≡ spawns
      → Step has_on_panic s (record s { dispatcher = receives; goroutines = loops ∷ s.goroutines })
  returned :
      (s : InfiLoop) (i : ℕ)
      → get_elem? s.goroutines i ≡ some loops
      → Step has_on_panic s (record s { rounds = s.rounds + 1 })
  panicked :
      (s : InfiLoop) (i : ℕ)
      → get_elem? s.goroutines i ≡ some loops
      → Step has_on_panic s (record s {
        goroutines = set s.goroutines i delays;
        panics = s.panics + 1;
        reports = if has_on_panic then s.reports + 1 else s.reports;
      })
  woke :
      (s : InfiLoop) (i : ℕ)
      → get_elem? s.goroutines i ≡ some delays
      → Step has_on_panic s (record s { goroutines = set s.goroutines i sends })
  sent :
      (s : InfiLoop) (i : ℕ)
      → get_elem? s.goroutines i ≡ some sends
      → s.dispatcher ≡ receives
      → Step has_on_panic s
          (record s { dispatcher = spawns; goroutines = remove_at i s.goroutines })

pub data Steps (has_on_panic : Bool) (s : InfiLoop) : InfiLoop → Type 0 where
  here : Steps has_on_panic s s
  next : {t u : InfiLoop} → Steps has_on_panic s t → Step has_on_panic t u → Steps has_on_panic s u
