-- ===== src/Restart/Single.antt =====
-- At all times one goroutine, and no more, has the loop of todo or is about to have it.
use downloadmgr.Prelude.{
  ℕ, zero, suc, ◌+◌, ◌≡◌, refl, Bool, true, false, List, [], ◌∷◌, some, arith, get_elem?, remove_at,
  set, length, if◌then◌else◌,
}
use downloadmgr.Restart.{
  Dispatcher, receives, spawns, delays, sends, InfiLoop, safe_infi_loop, Step, first_sent, spawned,
  returned, panicked, woke, sent, Steps, here, next,
}

abbrev pub pending_send : Bool → ℕ
pending_send true = 1
pending_send false = 0

abbrev pub pending_spawn : Dispatcher → ℕ
pending_spawn spawns = 1
pending_spawn receives = 0

-- One goroutine has the loop: the caller before its send, the outer loop before `go`, or the one
-- that was started last; and every panic was reported, if there is someone to report it to.
pub record IsSingle (has_on_panic : Bool) (s : InfiLoop) : Type 0 where
  pub one : pending_send s.first_send + pending_spawn s.dispatcher + length s.goroutines ≡ 1
  pub reported : s.reports ≡ (if has_on_panic then s.panics else 0)

length-set : {A : Type 0} (xs : List A) (i : ℕ) (x : A) → length (set xs i x) ≡ length xs
length-set [] i x = refl
length-set (y ∷ ys) zero x = refl
length-set (y ∷ ys) (suc i) x = omega (arith, length-set ys i x)

length-remove_at :
    {A : Type 0} (xs : List A) (i : ℕ) {x : A}
    → get_elem? xs i ≡ some x
    → length (remove_at i xs) + 1 ≡ length xs
length-remove_at [] i e = cc
length-remove_at (y ∷ ys) zero e = omega arith
length-remove_at (y ∷ ys) (suc i) e = omega (arith, length-remove_at ys i e)

module _ (has_on_panic : Bool) where
  Step-IsSingle :
      {s t : InfiLoop} → Step has_on_panic s t → IsSingle has_on_panic s → IsSingle has_on_panic t
  Step-IsSingle (first_sent s f d) h = record {
    one = ground (arith, h.one, f, d);
    reported = h.reported;
  }
  Step-IsSingle (spawned s d) h = record { one = ground (arith, h.one, d); reported = h.reported }
  Step-IsSingle (returned s i e) h = record { one = h.one; reported = h.reported }
  Step-IsSingle (panicked s i e) h = record {
    one = omega (arith, h.one, length-set s.goroutines i delays);
    reported = ground (arith, h.reported);
  }
  Step-IsSingle (woke s i e) h = record {
    one = omega (arith, h.one, length-set s.goroutines i sends);
    reported = h.reported;
  }
  Step-IsSingle (sent s i e d) h = record {
    one = ground (arith, h.one, d, length-remove_at s.goroutines i e);
    reported = h.reported;
  }

  pub Steps-IsSingle :
      {s t : InfiLoop} → IsSingle has_on_panic s → Steps has_on_panic s t → IsSingle has_on_panic t
  Steps-IsSingle h here = h
  Steps-IsSingle h (next r st) = Step-IsSingle st (Steps-IsSingle h r)

  -- Whatever todo does after a call of safeInfiLoop: at all times exactly one goroutine has the
  -- loop or is about to give it to a new one, so that two never run todo at once and none is lost
  -- to a panic; and onPanic, if it is set, was called once for every panic.
  pub safe_infi_loop-IsSingle :
      {s : InfiLoop} → Steps has_on_panic safe_infi_loop s → IsSingle has_on_panic s
  safe_infi_loop-IsSingle r = Steps-IsSingle (record { one = refl; reported = ground arith }) r
