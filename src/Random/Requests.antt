-- ===== src/Random/Requests.antt =====
-- Requests that exit to userspace, and the replies to them.
use bedrock.Base.{ℕ, ◌≡◌, refl, true, false, some, List, take, take-copy}
use bedrock.Random.{
  RandomState, exit_to_userspace, random_reply_max, generate, generate_by, set_pending_value,
  needs_rdrand_exit, stage_reply, needs_get_random_exit, begin_request,
}

-- In exit mode a staged value is served once: the request after it must exit.
pub generate-set_pending_value :
    (v : ℕ) (s : RandomState)
    → s.mode ≡ exit_to_userspace
    → ((generate (set_pending_value v s)).0 ≡ some v)
      × (needs_rdrand_exit (set_pending_value v s) ≡ false)
      × (needs_rdrand_exit (generate (set_pending_value v s)).1 ≡ true)
unfolding generate generate_by set_pending_value needs_rdrand_exit
generate-set_pending_value v s m = (rw m refl, rw m refl, rw m refl)

-- After a request has been recorded and its reply staged, the bytes read back are the reply's, cut
-- off at the buffer's size; the request did exit before, and need not now.
pub stage_reply-begin_request :
    (gva len pid : ℕ) (bytes : List ℕ) (s : RandomState)
    → s.mode ≡ exit_to_userspace
    → (needs_get_random_exit (begin_request gva len pid s) ≡ true)
      × (needs_get_random_exit (stage_reply bytes (begin_request gva len pid s)) ≡ false)
      × (take
            (stage_reply bytes (begin_request gva len pid s)).reply_len
            (stage_reply bytes (begin_request gva len pid s)).reply
          ≡ take random_reply_max bytes)
unfolding stage_reply begin_request needs_get_random_exit
stage_reply-begin_request gva len pid bytes s m =
    (rw m refl, rw m refl, take-copy random_reply_max bytes _)
