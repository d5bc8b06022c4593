-- ===== src/Budget/Tracker/Examples.antt =====
-- internal/budget/tracker.go at concrete inputs: two spends of one minute, of which the older one takes the
-- newer one along.
use nexus_proxy.Shared.{◌≡◌, ◌+◌, ◌≤◌, suc, refl, List, [], ◌∷◌, ltb, arith}
use nexus_proxy.Shared.Int.{pos}
use nexus_proxy.Budget.{window_length}
use nexus_proxy.Budget.Tracker.{
  new_spend_tracker, tracker_would_exceed, current_spend, tracker_retry_after, tracker_record,
  prune, prune_buckets, file_entry, trimmed, drop_leading, bucket_key, leading_amount, sum_of,
  until_reset,
}
use nexus_proxy.Budget.Tracker.History.{Call, records, asks, after, after_all, recorded_within}
use nexus_proxy.Budget.Tracker.Buckets.{short}
use nexus_proxy.Budget.Tracker.Bounds.{tracker_bounds}

-- Both are recorded in the first minute, 59 seconds apart.
abbrev two_spends : List Call
two_spends = records 0 (pos 10) ∷ records 59000000000 (pos 30) ∷ asks 60000000000 (pos 1) ∷ []

tracker_bounds_example :
    let t = after_all (new_spend_tracker (pos 100)) two_spends in
    (recorded_within short 86400000000001 two_spends ≤ (current_spend t 86400000000001).1)
    × (((current_spend t 86400000000001).1
          ≤ recorded_within window_length 86400000000001 two_spends)
        × ((tracker_would_exceed t 86400000000001 (pos (suc 79))).1
            ≡ ltb 100 ((current_spend t 86400000000001).1 + suc 79)))
tracker_bounds_example =
    tracker_bounds 100 60000000000 86400000000001 79 two_spends (omega arith)
      (omega arith, (omega arith, (omega arith, omega arith))) (omega arith)

-- Ten is a day old: the thirty spent 59 seconds later are gone with it.
younger_dropped :
    ((current_spend (after_all (new_spend_tracker (pos 100)) two_spends) 86400000000001).1 ≡ 0)
    × (recorded_within window_length 86400000000001 two_spends ≡ 30)
unfolding after_all new_spend_tracker current_spend recorded_within after tracker_would_exceed
    tracker_record prune prune_buckets file_entry trimmed drop_leading bucket_key leading_amount
    sum_of
younger_dropped = (refl, refl)

waits_for_oldest :
    (tracker_retry_after
      (after_all (new_spend_tracker (pos 100)) two_spends)
      86399000000000
      86399000000000).1
    ≡ 1000000000
unfolding after_all new_spend_tracker tracker_retry_after after tracker_would_exceed tracker_record
    until_reset prune prune_buckets file_entry trimmed drop_leading bucket_key
waits_for_oldest = refl
