-- ===== src/Tests/Protocol.antt =====
-- Messages of the I/O channel.
use bedrock.Base.{
  ℕ, ◌+◌, ◌-◌, ◌≤◌, ◌≡◌, refl, true, none, some, List, [], ◌∷◌, ◌++◌, length, take, arith,
}
use bedrock.Base.Int.{pos, negsuc}
use bedrock.IoProtocol.{
  IoResponse, encode_request, decode_request, decode_response, unwrap_name, target_of,
}
use bedrock.IoProtocol.RoundTrip.{IsText, empty, more, decode_request-encode_request}
use bedrock.IoProtocol.Response.{response_bytes, decode_response-response_bytes}

-- ASCII is kept as it is.
as_is : List ℕ → List ℕ
as_is b = b

-- "db", "ls"
abbrev db : List ℕ
db = 100 ∷ 98 ∷ []

abbrev ls : List ℕ
ls = 108 ∷ 115 ∷ []

db-IsText : IsText (unwrap_name (some db))
unfolding unwrap_name
db-IsText = more (omega arith) (more (omega arith) empty)

ls-IsText : IsText ls
ls-IsText = more (omega arith) (more (omega arith) empty)

db_kept : as_is (unwrap_name (some db)) ≡ unwrap_name (some db)
unfolding as_is
db_kept = refl

db_length : 13 + length (unwrap_name (some db)) ≤ 16
unfolding unwrap_name
db_length = omega arith

-- Cut after the first letter of the command.
decode_request-encode_request_example :
    decode_request as_is (take 16 (encode_request (some db) ls true))
    ≡ some (record {
      target = target_of (unwrap_name (some db));
      command = as_is (take (16 - (13 + length (unwrap_name (some db)))) ls);
      record_output = true;
    })
decode_request-encode_request_example =
    decode_request-encode_request as_is (some db) ls true 16 db-IsText ls-IsText db_kept db_length

abbrev reply : IoResponse
reply = record { status = negsuc 1; exit_code = pos 42; output_len = 1234 }

decode_response-response_bytes_example :
    (decode_response (response_bytes 0 reply ++ []) ≡ some reply)
    × (decode_request as_is (response_bytes 0 reply ++ []) ≡ none)
decode_response-response_bytes_example =
    decode_response-response_bytes as_is 0 reply [] (omega arith) (omega arith) (omega arith)
