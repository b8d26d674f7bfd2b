-- ===== src/IoProtocol.antt =====
-- The wire protocol of the I/O channel: crates/bedrock-vm/src/io_channel.rs. A string is the list of its
-- bytes, and `String::from_utf8_lossy` a parameter.
pub mod RoundTrip
pub mod Response
use bedrock.Base.{
  ℕ, zero, suc, ◌+◌, ◌^◌, ◌==◌, Bool, true, false, not, Option, none, some, List, [], ◌∷◌, ◌++◌,
  length, take, drop, bit_and, ltb, if◌then◌else◌, u32, shr,
}
use bedrock.Base.Bytes.{to_le, from_le}
use bedrock.Base.Int.{ℤ, pos, negsuc, to_i32}

abbrev pub io_request_magic : ℕ
io_request_magic = 2970357776

abbrev pub io_response_magic : ℕ
io_response_magic = 269529356

abbrev pub io_flag_record_output : ℕ
io_flag_record_output = 1

abbrev pub request_header_len : ℕ
request_header_len = 12

abbrev pub response_header_len : ℕ
response_header_len = 20

pub data IoTarget : Type 0 where
  host : IoTarget
  container : List ℕ → IoTarget

pub record IoRequest : Type 0 where
  pub target : IoTarget
  pub command : List ℕ
  pub record_output : Bool

pub record IoResponse : Type 0 where
  pub status : ℤ
  pub exit_code : ℤ
  pub output_len : ℕ

unfoldable pub unwrap_name : Option (List ℕ) → List ℕ
unwrap_name none = []
unwrap_name (some name) = name

unfoldable pub encode_request : Option (List ℕ) → List ℕ → Bool → List ℕ
encode_request name command record_output =
    let payload = unwrap_name name ++ (0 ∷ (command ++ (0 ∷ []))) in
    let flags = if record_output then io_flag_record_output else 0 in
    to_le 4 io_request_magic ++ (to_le 4 flags ++ (to_le 4 (u32 (length payload)) ++ payload))

-- `b.iter().position(|&c| c == 0).unwrap_or(b.len())`
unfoldable pub end_of : List ℕ → ℕ
end_of [] = 0
end_of (c ∷ rest) = if c == 0 then 0 else suc (end_of rest)

unfoldable pub split_cstr : (List ℕ → List ℕ) → List ℕ → List ℕ × List ℕ
split_cstr from_utf8_lossy b = (from_utf8_lossy (take (end_of b) b), drop (end_of b + 1) b)

unfoldable pub target_of : List ℕ → IoTarget
target_of [] = host
target_of (c ∷ name) = container (c ∷ name)

-- `bytes.get(first..first + 4)?` as a number.
unfoldable pub word_at : List ℕ → ℕ → Option ℕ
word_at bytes first =
    if ltb (length bytes) (first + 4) then none else some (from_le (take 4 (drop first bytes)))

unfoldable pub decode_request : (List ℕ → List ℕ) → List ℕ → Option IoRequest
decode_request from_utf8_lossy bytes =
    let fields = split_cstr from_utf8_lossy (drop request_header_len bytes) in
    let request : ℕ → IoRequest = λ flags. record {
      target = target_of fields.0;
      command = (split_cstr from_utf8_lossy fields.1).0;
      record_output = not (bit_and flags io_flag_record_output == 0);
    } in
    elim (word_at bytes 0) [
      | none ↦ none
      | some magic ↦
          if magic == io_request_magic
          then elim (word_at bytes 4) [ none ↦ none | some flags ↦ some (request flags) ]
          else none
    ]

unfoldable pub decode_response : List ℕ → Option IoResponse
decode_response bytes =
    let response : ℕ → ℕ → ℕ → IoResponse = λ status exit_code output_len. record {
      status = to_i32 status;
      exit_code = to_i32 exit_code;
      output_len = output_len;
    } in
    elim (word_at bytes 0) [
      | none ↦ none
      | some magic ↦
          if magic == io_response_magic
          then elim (word_at bytes 8) [
            | none ↦ none
            | some status ↦ elim (word_at bytes 12) [
              | none ↦ none
              | some exit_code ↦ elim (word_at bytes 16) [
                | none ↦ none
                | some output_len ↦ some (response status exit_code output_len)
              ]
            ]
          ]
          else none
    ]

unfoldable pub exit_code_from_wait_status : ℤ → ℤ
exit_code_from_wait_status (negsuc n) = negsuc n
exit_code_from_wait_status (pos raw) =
    if not (bit_and raw 127 == 0)
    then pos (128 + bit_and raw 127)
    else pos (bit_and (shr raw 8) 255)
