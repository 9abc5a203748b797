-- ===== src/Manager/Settle/Ends.antt =====
-- taskSuccess, taskCancel and taskFail of task.go keep the manager safe and take the task out of the
-- task map.
use downloadmgr.Prelude.{ℕ, ◌+◌, ◌≤◌, ◌≡◌, ◌≢◌, inl, inr, refl, ap, sym, ◌∙◌, count, one_if, arith}
use downloadmgr.ArrayList.{ArrayList}
use downloadmgr.Task.{
  ChannelName, pre_handle_channel, quick_channel, random_channel, unpause_fast_channel,
  unpause_slow_channel,
}
use downloadmgr.Channel.Order.{IsSorted-congr}
use downloadmgr.Manager.{
  DownloadMgr, log, client_panic, start_times, map_delete, task_success, task_cancel, task_fail,
}
use downloadmgr.Manager.Places.{endings, losses, panics, idle, idle_count, IsSafe, Settles}

module _ {L : Type 0} ⦃al : ArrayList L⦄ where
  pub count-out :
      (dm : DownloadMgr L) (n : ChannelName) (x : ℕ) → idle_count x dm ≡ 0 → count x (idle dm n) ≡ 0
  count-out dm pre_handle_channel x h = omega arith
  count-out dm quick_channel x h = omega arith
  count-out dm random_channel x h = omega arith
  count-out dm unpause_fast_channel x h = omega arith
  count-out dm unpause_slow_channel x h = omega arith

  -- A change of the task `x`, which is in no idle list, and of the calls.
  pub keep-IsSafe :
      (dm dm' : DownloadMgr L) (x : ℕ)
      → dm'.channel ≡ dm.channel
      → ((q : ℕ) → x ≢ q → dm'.tasks q ≡ dm.tasks q)
      → panics dm'.calls ≡ panics dm.calls
      → idle_count x dm ≡ 0
      → IsSafe dm
      → IsSafe dm'
  keep-IsSafe dm dm' x same others quiet out s = record {
    sorted = λ n. rw same (
        IsSorted-congr (start_times dm) (start_times dm') x (idle dm n)
          (λ q h. ap (λ t. t.allow_start_time) (sym (others q h))) (count-out dm n x out)
          (s.sorted n));
    listed = λ n r h.
        let h' = rw same at h in
        rw (others r (λ e. absurd (ground (arith, count-out dm n x out)))) (s.listed n r h');
    limits = λ n. rw same (s.limits n);
    calm = quiet ∙ s.calm;
  }

  -- An operation that ends the task `x`: it changes that task and the calls, and takes it out of
  -- the task map.
  ends-Settles :
      (dm dm' : DownloadMgr L) (x : ℕ)
      → dm'.channel ≡ dm.channel
      → (dm'.next_ref ≡ dm.next_ref) × (dm'.current_id ≡ dm.current_id)
      → dm'.task_map ≡ map_delete (dm.tasks x).id dm.task_map
      → ((q : ℕ) → x ≢ q → dm'.tasks q ≡ dm.tasks q)
      → ((dm'.tasks x).id ≡ (dm.tasks x).id)
        × ((dm'.tasks x).cancel_flag ≡ (dm.tasks x).cancel_flag)
      → ((r : ℕ) → endings r dm'.calls ≤ endings r dm.calls + one_if x r)
      → ((r : ℕ) → losses r dm'.calls ≡ losses r dm.calls)
      → panics dm'.calls ≡ panics dm.calls
      → idle_count x dm ≡ 0
      → IsSafe dm
      → Settles dm x dm'
  ends-Settles dm dm' x same fixed gone others id once unlost quiet out s = record {
    safe = keep-IsSafe dm dm' x same others quiet out s;
    moves = record {
      total = λ r. rw same (omega (arith, once r, unlost r));
      others = others;
      same_id = id.0;
      same_flag = id.1;
      same_next = fixed.0;
      same_current = fixed.1;
      elsewhere = λ r h. rw same;
      lost_elsewhere = λ r h. unlost r;
      mapped = inr (inl (rw same, unlost x, gone));
    };
  }

  module _ (dm : DownloadMgr L) (x : ℕ) (out : idle_count x dm ≡ 0) (s : IsSafe dm) where
    pub task_success-Settles : Settles dm x (task_success dm x)
    unfolding task_success
    task_success-Settles =
        ends-Settles dm _ x refl (refl, refl) (ground arith) (λ q h. ground arith) (ground arith)
          (λ r. ground arith) (λ r. ground arith) (ground arith) out s

    pub task_cancel-Settles : Settles dm x (task_cancel dm x)
    unfolding task_cancel
    task_cancel-Settles =
        ends-Settles dm _ x refl (refl, refl) (ground arith) (λ q h. ground arith) (ground arith)
          (λ r. ground arith) (λ r. ground arith) (ground arith) out s

    pub task_fail-Settles : Settles dm x (task_fail dm x)
    unfolding task_fail
    task_fail-Settles =
        ends-Settles dm _ x refl (refl, refl) (ground arith) (λ q h. ground arith) (ground arith)
          (λ r. ground arith) (λ r. ground arith) (ground arith) out s

    -- A panic of client.Do leaves the task where it is: in no list, and in the task map.
    pub client_panic-Settles : Settles dm x (log dm (client_panic x))
    client_panic-Settles = record {
      safe = keep-IsSafe dm _ x refl (λ q h. refl) (ground arith) out s;
      moves = record {
        total = λ r. ground arith;
        others = λ q h. refl;
        same_id = refl;
        same_flag = refl;
        same_next = refl;
        same_current = refl;
        elsewhere = λ r h. refl;
        lost_elsewhere = λ r h. ground arith;
        mapped = inr (inr (refl, ground arith, refl));
      };
    }
