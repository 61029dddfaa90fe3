-- ===== src/GroupQueue/Retry.antt =====
-- host/group_queue.py, `_schedule_retry`: exponential backoff, and giving up after `MAX_RETRIES`.
use evoclaw.Base.{ℕ, ◌+◌, ◌-◌, ◌*◌, ◌^◌, String, true, false, ◌∷◌, [], ◌++◌, ltb, if◌then◌else◌}
use evoclaw.GroupQueue.{
  GroupQueue, retry_exceeded, max_retries, base_retry_secs, get_group, put_group,
  enqueue_message_check,
}

-- `BASE_RETRY_SECS * (2 ** (retry_count - 1))`
unfoldable pub retry_delay : ℕ → ℕ
retry_delay count = base_retry_secs * 2 ^ (count - 1)

unfoldable pub schedule_retry : GroupQueue → String → GroupQueue
schedule_retry q jid =
    let s = get_group q jid in
    let count = s.retry_count + 1 in
    if ltb max_retries count
    then record (put_group q jid (record s { retry_count = 0; retry_ready = false })) {
      notices = q.notices ++ (jid, retry_exceeded) ∷ [];
    }
    else record (put_group q jid (record s { retry_count = count })) {
      retry_tasks = q.retry_tasks ++ (jid, retry_delay count) ∷ [];
    }

-- `_retry`, once its sleep is over: the timer of `jid` has left `retry_tasks`.
unfoldable pub retry_fires : ℕ → GroupQueue → String → ℕ → GroupQueue
retry_fires max q jid now =
    if q.shutting_down
    then q
    else enqueue_message_check max
        (put_group q jid (record (get_group q jid) { retry_ready = true })) jid now true
