-- ===== src/Manager/System/Removal.antt =====
-- A poll takes one task out of one idle list.
use downloadmgr.Prelude.{
  ℕ, ◌+◌, ◌<◌, ◌≡◌, inl, inr, ap, subst, ◌∙◌, some, count, one_if, arith, Bool-cases, get_elem?,
  remove_at, count-remove_at,
}
use downloadmgr.ArrayList.{ArrayList}
use downloadmgr.Task.{
  ChannelName, pre_handle_channel, quick_channel, random_channel, unpause_fast_channel,
  unpause_slow_channel,
}
use downloadmgr.Channel.{DownloadChannel}
use downloadmgr.Channel.Order.{IsSorted, IsSorted-remove_at}
use downloadmgr.Manager.{DownloadMgr, set_channel, start_times, name_eq}
use downloadmgr.Manager.Places.{idle, idle_count, HasLimits, BelongsTo, IsSafe}
use downloadmgr.Manager.Settle.{name_eq→eq}

module _ {L : Type 0} ⦃al : ArrayList L⦄ where
  module _ (dm : DownloadMgr L) (n : ChannelName) (i r : ℕ) (dc : DownloadChannel L)
      (at : get_elem? (idle dm n) i ≡ some r)
      (gone : al.values dc.idle_list ≡ remove_at i (idle dm n)) where
    pub idle_count-removed :
        (q : ℕ) → idle_count q (set_channel dm n dc) + one_if r q ≡ idle_count q dm
    idle_count-removed q =
        by_name n (omega (arith, ap (count q) gone, count-remove_at q r i (idle dm n) at))
      where
        by_name :
            (m : ChannelName)
            → count q (al.values dc.idle_list) + one_if r q ≡ count q (idle dm m)
            → idle_count q (set_channel dm m dc) + one_if r q ≡ idle_count q dm
        by_name pre_handle_channel h = omega arith
        by_name quick_channel h = omega arith
        by_name random_channel h = omega arith
        by_name unpause_fast_channel h = omega arith
        by_name unpause_slow_channel h = omega arith

    -- What holds of the list of every channel, of the shorter list too, holds after the removal.
    removed_at :
        (P : ChannelName → DownloadChannel L → Type 0)
        → ((m : ChannelName) → P m (dm.channel m))
        → P n dc
        → (m : ChannelName) → P m ((set_channel dm n dc).channel m)
    removed_at P all here m = elim (Bool-cases (name_eq n m)) [
      | inl e ↦ rw e (subst (λ k. P k dc) (name_eq→eq n m e) here)
      | inr e ↦ rw e (all m)
    ]

    pub removed-IsSafe :
        (dc.downloading_count_limit ≡ (dm.channel n).downloading_count_limit)
          × (dc.retry_times_limit ≡ (dm.channel n).retry_times_limit)
        → IsSafe dm
        → IsSafe (set_channel dm n dc)
    removed-IsSafe (workers, retries) s = record {
      sorted =
          removed_at (λ m d. IsSorted (start_times dm) (al.values d.idle_list)) s.sorted
            (rw gone (IsSorted-remove_at (start_times dm) i (idle dm n) (s.sorted n)));
      listed =
          removed_at
            (λ m d. (q : ℕ) → 0 < count q (al.values d.idle_list) → BelongsTo m (dm.tasks q))
            s.listed
            (λ q h.
              s.listed n q
                (omega (arith, ap (count q) gone, count-remove_at q r i (idle dm n) at)));
      limits = removed_at HasLimits s.limits (retries ∙ (s.limits n).0, workers ∙ (s.limits n).1);
      calm = s.calm;
    }
