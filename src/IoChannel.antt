-- ===== src/IoChannel.antt =====
-- `IoChannelState`: crates/bedrock-vmx/src/vm_state.rs, the slot of the request in flight and the
-- queue of the requests that wait for it.
pub mod Queue
use bedrock.Base.{
  ℕ, zero, ◌==◌, Bool, true, false, not, List, [], ◌∷◌, ◌++◌, length, take, drop, min, leb,
  replicate, if◌then◌else◌,
}

abbrev pub io_channel_buf_size : ℕ
io_channel_buf_size = 4096

abbrev pub pending_io_queue_cap : ℕ
pending_io_queue_cap = 256

pub record PendingIoAction : Type 0 where
  pub target_tsc : ℕ
  pub bytes : List ℕ

pub record IoChannelState : Type 0 where
  pub page_gpa : ℕ
  pub request_len : ℕ
  pub request_delivered : Bool
  pub request_target_tsc : ℕ
  pub response_len : ℕ
  pub request_buf : List ℕ
  pub response_buf : List ℕ
  pub pending : List PendingIoAction

unfoldable pub new : IoChannelState
new = record {
  page_gpa = 0;
  request_len = 0;
  request_delivered = false;
  request_target_tsc = 0;
  response_len = 0;
  request_buf = replicate io_channel_buf_size 0;
  response_buf = replicate io_channel_buf_size 0;
  pending = [];
}

unfoldable pub clone_for_fork : IoChannelState → IoChannelState
clone_for_fork parent = record {
  page_gpa = parent.page_gpa;
  request_len = 0;
  request_delivered = false;
  request_target_tsc = 0;
  response_len = 0;
  request_buf = replicate io_channel_buf_size 0;
  response_buf = replicate io_channel_buf_size 0;
  pending = [];
}

-- The request is copied to the start of the buffer; what is behind it stays.
unfoldable pub promote : IoChannelState → PendingIoAction → List PendingIoAction → IoChannelState
promote chan next rest =
    let len = min (length next.bytes) io_channel_buf_size in
    record chan {
      pending = rest;
      request_buf = take len next.bytes ++ drop len chan.request_buf;
      request_len = len;
      request_target_tsc = next.target_tsc;
      request_delivered = false;
      response_len = 0;
    }

unfoldable pub promote_next_pending : IoChannelState → IoChannelState
promote_next_pending chan =
    if not (chan.request_len == 0)
    then chan
    else elim chan.pending [ [] ↦ chan | next ∷ rest ↦ promote chan next rest ]

pub data EnqueueResult : Type 0 where
  queued full out_of_memory : EnqueueResult

-- `memory` is the answer of the allocator, which `heap_vec_push` may ask for a longer buffer.
unfoldable pub enqueue_pending :
    Bool → PendingIoAction → IoChannelState → EnqueueResult × IoChannelState
enqueue_pending memory action chan =
    if leb pending_io_queue_cap (length chan.pending)
    then (full, chan)
    else (if memory
        then (queued, record chan { pending = chan.pending ++ (action ∷ []) })
        else (out_of_memory, chan))
