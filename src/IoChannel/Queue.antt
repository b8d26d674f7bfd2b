-- ===== src/IoChannel/Queue.antt =====
-- The I/O channel is a FIFO of requests: its slot and its queue, read as one list.
use mathlib.Core.List.{map-append, append_assoc}
use bedrock.Base.{
  ℕ, zero, suc, ◌≤◌, ◌<◌, ◌==◌, ◌≡◌, refl, sym, ap, ◌∙◌, Bool, true, false, List, [], ◌∷◌, ◌++◌,
  map, length, take, drop, min, arith, leb, take-copy, take_all, length-append, ◌⊎◌, inl, inr,
  Bool-cases, ==-false, eq→==,
}
use bedrock.IoChannel.{
  PendingIoAction, IoChannelState, promote, promote_next_pending, enqueue_pending, queued, full,
  out_of_memory, io_channel_buf_size, pending_io_queue_cap,
}

-- The requests not yet handed to the guest, the one in flight first.
unfoldable pub slot : ℕ → List ℕ → List (List ℕ)
slot zero buf = []
slot (suc n) buf = take (suc n) buf ∷ []

unfoldable pub requests : IoChannelState → List (List ℕ)
requests chan =
    slot chan.request_len chan.request_buf ++ map (λ (a : PendingIoAction). a.bytes) chan.pending

-- A request that the slot can hold.
abbrev pub Fits : PendingIoAction → Type 0
Fits a = (0 < length a.bytes) × (length a.bytes ≤ io_channel_buf_size)

slot-pos : (n : ℕ) (buf : List ℕ) → 0 < n → slot n buf ≡ take n buf ∷ []
unfolding slot
slot-pos zero buf h = absurd (omega arith)
slot-pos (suc n) buf h = refl

promote-requests :
    (chan : IoChannelState) (next : PendingIoAction) (rest : List PendingIoAction)
    → Fits next
    → requests (promote chan next rest) ≡ next.bytes ∷ map (λ (a : PendingIoAction). a.bytes) rest
unfolding promote requests
promote-requests chan next rest (pos, fit) =
    let len = min (length next.bytes) io_channel_buf_size in
    let whole : take len (take len next.bytes ++ drop len chan.request_buf) ≡ next.bytes =
      take-copy io_channel_buf_size next.bytes _ ∙ take_all _ next.bytes fit in
    ap (λ (l : List (List ℕ)). l ++ map (λ (a : PendingIoAction). a.bytes) rest)
      (slot-pos len _ (omega arith) ∙ ap (λ (l : List ℕ). l ∷ []) whole)

free_slot :
    (chan : IoChannelState) (next : PendingIoAction) (rest : List PendingIoAction)
    → chan.request_len ≡ 0
    → chan.pending ≡ next ∷ rest
    → requests chan ≡ next.bytes ∷ map (λ (a : PendingIoAction). a.bytes) rest
unfolding requests slot
free_slot chan next rest e f = rw (e, f) refl

-- Every request in the queue fits.
abbrev pub AllFit : List PendingIoAction → Type 0
AllFit [] = Unit
AllFit (a ∷ rest) = Fits a × AllFit rest

-- Promoting the front of the queue into the slot loses, repeats and reorders no request, when no
-- request in the queue is empty or longer than a page.
pub requests-promote_next_pending :
    (chan : IoChannelState)
    → AllFit chan.pending
    → requests (promote_next_pending chan) ≡ requests chan
unfolding promote_next_pending
requests-promote_next_pending chan h = go chan.request_len refl chan.pending refl h
  where
    go :
        (n : ℕ)
        → chan.request_len ≡ n
        → (l : List PendingIoAction) → chan.pending ≡ l
        → AllFit l
        → requests (promote_next_pending chan) ≡ requests chan
    go (suc n) e l f k =
        let busy : (chan.request_len == 0) ≡ false = ==-false _ _ (omega arith) in rw busy refl
    go zero e [] f k = let free : (chan.request_len == 0) ≡ true = eq→== _ _ e in simp (free, f)
    go zero e (next ∷ rest) f (fits, k) =
        let free : (chan.request_len == 0) ≡ true = eq→== _ _ e in
        let step : promote_next_pending chan ≡ promote chan next rest = simp (free, f) in
        ap requests step ∙ promote-requests chan next rest fits ∙ sym (free_slot chan next rest e f)

-- A request that is accepted comes last; one that is refused changes nothing, and the answer says whether
-- the queue was full or the allocator had no memory. A queue of at most 256 requests stays one.
pub requests-enqueue_pending :
    (memory : Bool) (action : PendingIoAction) (chan : IoChannelState)
    → length chan.pending ≤ pending_io_queue_cap
    → (length (enqueue_pending memory action chan).1.pending ≤ pending_io_queue_cap)
      × ((((enqueue_pending memory action chan).0 ≡ queued)
            × (requests (enqueue_pending memory action chan).1
                ≡ requests chan ++ (action.bytes ∷ [])))
          ⊎ (((enqueue_pending memory action chan).1 ≡ chan)
              × ((((enqueue_pending memory action chan).0 ≡ out_of_memory) × (memory ≡ false))
                  ⊎ (((enqueue_pending memory action chan).0 ≡ full)
                      × (length chan.pending ≡ pending_io_queue_cap)))))
unfolding enqueue_pending requests
requests-enqueue_pending memory action chan h =
    let bytes : PendingIoAction → List ℕ = λ a. a.bytes in
    let joined =
      ap (λ (l : List (List ℕ)). slot chan.request_len chan.request_buf ++ l)
        (map-append bytes chan.pending (action ∷ []))
      ∙ sym (
          append_assoc (slot chan.request_len chan.request_buf) (map bytes chan.pending)
            (action.bytes ∷ [])) in
    elim (Bool-cases (leb pending_io_queue_cap (length chan.pending))) [
      | inl t ↦ rw t (h, inr (refl, inr (refl, ground arith)))
      | inr t ↦ elim (Bool-cases memory) [
        | inl m ↦
            let cap : length chan.pending < pending_io_queue_cap = ground arith in
            rw (t, m)
              ((omega (arith, length-append chan.pending (action ∷ []), cap), inl (refl, joined)))
        | inr m ↦ rw (t, m) (h, inr (refl, inl (refl, refl)))
      ]
    ]
