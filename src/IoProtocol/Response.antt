-- ===== src/IoProtocol/Response.antt =====
-- Responses: the two kinds of message are told apart, and a wait status gives the shell's exit code.
use bedrock.Base.{
  ℕ, ◌+◌, ◌*◌, ◌%◌, ◌^◌, ◌<◌, ◌≡◌, ◌≢◌, refl, ◌∙◌, Bool, true, false, none, some, List, ◌++◌, arith,
  if◌then◌else◌, bit_and, shr, ==-false,
}
use bedrock.Base.Bits.Field.{bit_and_low}
use bedrock.Base.Bytes.{to_le, from_le-to_le}
use bedrock.Base.Int.{ℤ, pos, negsuc, to_i32, of_i32, IsI32, to_i32-of_i32, of_i32-lt}
use bedrock.IoProtocol.{
  IoResponse, decode_request, decode_response, word_at, io_response_magic,
  exit_code_from_wait_status,
}
use bedrock.IoProtocol.RoundTrip.{word_at-le}

-- The layout that the guest module writes: magic, flags, status, exit code, length of the output.
abbrev pub response_bytes : ℕ → IoResponse → List ℕ
response_bytes flags r =
    to_le 4 io_response_magic
    ++ (to_le 4 flags
        ++ (to_le 4 (of_i32 r.status) ++ (to_le 4 (of_i32 r.exit_code) ++ to_le 4 r.output_len)))

decode_response-words :
    (bytes : List ℕ) (a b c : ℕ)
    → word_at bytes 0 ≡ some io_response_magic
    → word_at bytes 8 ≡ some a
    → word_at bytes 12 ≡ some b
    → word_at bytes 16 ≡ some c
    → decode_response bytes
      ≡ some (record { status = to_i32 a; exit_code = to_i32 b; output_len = c })
unfolding decode_response
decode_response-words bytes a b c m ea eb ec = rw (m, ea, eb, ec, decode_response) refl

decode_request-other :
    (lossy : List ℕ → List ℕ) (bytes : List ℕ)
    → word_at bytes 0 ≡ some io_response_magic
    → decode_request lossy bytes ≡ none
unfolding decode_request
decode_request-other lossy bytes m = rw (m, decode_request) refl

-- A response in the documented layout is decoded field by field, and is not taken for a request. The
-- status and the exit code are 32-bit integers, the length a 32-bit number.
pub decode_response-response_bytes :
    (lossy : List ℕ → List ℕ) (flags : ℕ) (r : IoResponse) (rest : List ℕ)
    → IsI32 r.status
    → IsI32 r.exit_code
    → r.output_len < 2 ^ 32
    → (decode_response (response_bytes flags r ++ rest) ≡ some r)
      × (decode_request lossy (response_bytes flags r ++ rest) ≡ none)
decode_response-response_bytes lossy flags r rest hs hc hl =
    let bytes = response_bytes flags r ++ rest in
    let magic : word_at bytes 0 ≡ some io_response_magic =
      word_at-le bytes 0 io_response_magic (omega arith) refl in
    let status : word_at bytes 8 ≡ some (of_i32 r.status) =
      word_at-le bytes 8 (of_i32 r.status) (omega arith)
        (from_le-to_le 4 (of_i32 r.status) (omega (arith, of_i32-lt r.status hs))) in
    let code : word_at bytes 12 ≡ some (of_i32 r.exit_code) =
      word_at-le bytes 12 (of_i32 r.exit_code) (omega arith)
        (from_le-to_le 4 (of_i32 r.exit_code) (omega (arith, of_i32-lt r.exit_code hc))) in
    let len : word_at bytes 16 ≡ some r.output_len =
      word_at-le bytes 16 r.output_len (omega arith)
        (from_le-to_le 4 r.output_len (omega (arith, hl))) in
    (
      decode_response-words bytes (of_i32 r.status) (of_i32 r.exit_code) r.output_len magic status
            code len
          ∙ (λ i. some (record {
            status = to_i32-of_i32 r.status hs i;
            exit_code = to_i32-of_i32 r.exit_code hc i;
            output_len = r.output_len;
          })),
      decode_request-other lossy bytes magic,
    )

-- How a command ended, as `call_usermodehelper` reports it: an errno of the guest module, or what `wait`
-- encodes, an exit or a signal with its core-dump bit.
pub data Ended : Type 0 where
  failed : ℕ → Ended
  exited : ℕ → Ended
  killed : ℕ → Bool → Ended

pub data IsEnded : Ended → Type 0 where
  is_failed : {n : ℕ} → IsEnded (failed n)
  is_exited : {code : ℕ} → code < 256 → IsEnded (exited code)
  is_killed : {signal : ℕ} {core : Bool} → signal < 127 → signal ≢ 0 → IsEnded (killed signal core)

abbrev pub raw_status : Ended → ℤ
raw_status (failed n) = negsuc n
raw_status (exited code) = pos (code * 256)
raw_status (killed signal core) = pos ((if core then 128 else 0) + signal)

-- What a shell shows.
abbrev pub shell_code : Ended → ℤ
shell_code (failed n) = negsuc n
shell_code (exited code) = pos code
shell_code (killed signal core) = pos (128 + signal)

low_7 : (a : ℕ) → bit_and a 127 ≡ a % 128
low_7 a = bit_and_low 7 a

low_8 : (a : ℕ) → bit_and a 255 ≡ a % 256
low_8 a = bit_and_low 8 a

by_signal :
    (raw low : ℕ)
    → bit_and raw 127 ≡ low
    → low ≢ 0
    → exit_code_from_wait_status (pos raw) ≡ pos (128 + low)
unfolding exit_code_from_wait_status
by_signal raw low e h = rw (e, ==-false low 0 h) refl

by_exit :
    (raw code : ℕ)
    → bit_and raw 127 ≡ 0
    → bit_and (shr raw 8) 255 ≡ code
    → exit_code_from_wait_status (pos raw) ≡ pos code
unfolding exit_code_from_wait_status
by_exit raw code e h = rw (e, h) refl

-- Every way a command can end gives the exit code that a shell shows for it: an errno stays, an exit
-- gives its code, and a signal 128 plus its number, core dump or not.
pub exit_code_from_wait_status-raw_status :
    (e : Ended) → IsEnded e → exit_code_from_wait_status (raw_status e) ≡ shell_code e
unfolding exit_code_from_wait_status
exit_code_from_wait_status-raw_status (failed n) is_failed = refl
exit_code_from_wait_status-raw_status (exited code) (is_exited h) =
    by_exit (code * 256) code (low_7 (code * 256) ∙ omega arith)
      (low_8 (shr (code * 256) 8) ∙ omega arith)
exit_code_from_wait_status-raw_status (killed signal true) (is_killed h k) =
    by_signal (128 + signal) signal (low_7 (128 + signal) ∙ omega arith) k
exit_code_from_wait_status-raw_status (killed signal false) (is_killed h k) =
    by_signal (0 + signal) signal (low_7 (0 + signal) ∙ omega arith) k
