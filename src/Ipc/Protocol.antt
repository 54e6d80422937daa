-- ===== src/Ipc/Protocol.antt =====
-- Framing of IPC messages: ctrld/pktlab_ctrld/dpdk_client/protocol.py. A frame is a big-endian
-- 32-bit length and the payload.
pub mod Stream
pub mod Frames
use Prim.Native.String
use Prim.Native.Nat.{Ordering}
use pktlab.Base.{
  ℕ, zero, suc, ◌+◌, ◌-◌, ◌*◌, ◌/◌, ◌%◌, String, Bool, true, false, ◌||◌, Option, none, some, List,
  [], ◌∷◌, ◌++◌, leb, ◌==◌, if◌then◌else◌, is_nil, length,
}
use pktlab.Error.{
  Value, Values, Context, null, flag, int, float, text, list, dict, end, entry, num, texts,
  get_entry, protocol_error, Exn, typed, other,
}
use pktlab.Effect.{Outcome, ok, raised, Action, pure, raise, lift, and_then, ◌>>=◌, ◌>>◌}
use pktlab.Ipc.{
  RequestEnvelope, ResponseEnvelope, success, failure, Validated, valid, invalid, Loaded, bad_utf8,
  bad_json, json, Codec, Sockets,
}

abbrev pub frame_header_size : ℕ
frame_header_size = 4

abbrev pub max_frame_payload_size : ℕ
max_frame_payload_size = 16384

-- `FRAME_HEADER_STRUCT.pack`: four bytes, the most significant first.
unfoldable pub pack : ℕ → List ℕ
pack n = n / 16777216 % 256 ∷ n / 65536 % 256 ∷ n / 256 % 256 ∷ n % 256 ∷ []

-- `FRAME_HEADER_STRUCT.unpack`, of four bytes.
unfoldable pub unpack : List ℕ → ℕ
unpack (a ∷ b ∷ c ∷ d ∷ []) = a * 16777216 + b * 65536 + c * 256 + d
unpack _ = 0

abbrev pub length_context : ℕ → Context
length_context n =
    entry "payload_length" (num n)
      (entry "max_payload_length" (num (max_frame_payload_size - 1)) end)

-- `_frame_payload`
unfoldable pub frame_payload : List ℕ → Outcome (List ℕ)
frame_payload payload =
    let n = length payload in
    if n == 0 || leb max_frame_payload_size n
    then raised (
        typed (
          protocol_error "request payload exceeds the supported IPC frame size" (length_context n)))
    else ok (pack n ++ payload)

-- `encode_request`
unfoldable pub encode_request : Codec → RequestEnvelope → Outcome (List ℕ)
encode_request codec request = frame_payload (codec.dump_request request)

abbrev pub eof_error : ℕ → ℕ → Exn
eof_error size remaining = typed (
    protocol_error "unexpected EOF while reading an IPC frame"
      (entry "expected_bytes" (num size) (entry "remaining_bytes" (num remaining) end)))

module _ {W : Type 0} (sockets : Sockets W) where
  -- The loop of `_read_exact`: every round takes at least one byte, so `size` rounds are enough.
  unfoldable pub read_loop : ℕ → ℕ → ℕ → List ℕ → Action W (List ℕ)
  read_loop zero size remaining chunks w =
      if remaining == 0 then (ok chunks, w) else (raised (other "out of fuel"), w)
  read_loop (suc fuel) size remaining chunks w =
      if remaining == 0
      then (ok chunks, w)
      else (do
        chunk ← sockets.recv remaining
        if is_nil chunk
            then raise (eof_error size remaining)
            else read_loop fuel size (remaining - length chunk) (chunks ++ chunk))
          w

  -- `_read_exact`
  unfoldable pub read_exact : ℕ → Action W (List ℕ)
  read_exact size = read_loop size size size []

  -- `recv_frame`
  unfoldable pub recv_frame : Action W (List ℕ)
  recv_frame = do
    header ← read_exact frame_header_size
    if unpack header == 0 || leb max_frame_payload_size (unpack header)
        then raise (
            typed (
              protocol_error "received an invalid IPC frame length"
                (length_context (unpack header))))
        else read_exact (unpack header)

  -- `send_request`
  unfoldable pub send_request : Codec → RequestEnvelope → Action W Unit
  send_request codec request = do frame ← lift (encode_request codec request); sockets.sendall frame

-- `type(raw).__name__`
unfoldable pub type_name : Value → String
type_name null = "NoneType"
type_name (flag _) = "bool"
type_name (int _) = "int"
type_name (float _) = "float"
type_name (text _) = "str"
type_name (list _) = "list"
type_name (dict _) = "dict"

insert_text : String → List String → List String
insert_text s [] = s ∷ []
insert_text s (x ∷ xs) =
    let rest = insert_text s xs in
    elim (String.compare s x) [ Ordering.gt ↦ x ∷ rest | _ ↦ s ∷ x ∷ xs ]

-- `sorted(raw.keys())`
unfoldable pub sorted_keys : Context → List String
unfolding insert_text
sorted_keys end = []
sorted_keys (entry k v rest) = insert_text k (sorted_keys rest)

abbrev pub envelope_error : Value → Exn
envelope_error errors =
    typed
      (protocol_error "IPC response failed basic envelope validation" (entry "errors" errors end))

-- The tail of `parse_response`, on the value of `raw.get("ok")`.
unfoldable pub envelope : Codec → Context → Option Value → Outcome ResponseEnvelope
envelope codec raw (some (flag true)) = elim (codec.validate_success (dict raw)) [
  | valid (id, payload) ↦ ok (success id payload)
  | invalid errors ↦ raised (envelope_error errors)
]
envelope codec raw (some (flag false)) = elim (codec.validate_error (dict raw)) [
  | valid (id, error) ↦ ok (failure id error)
  | invalid errors ↦ raised (envelope_error errors)
]
envelope codec raw _ = raised (
    typed (
      protocol_error "IPC response did not contain a valid ok discriminator"
        (entry "keys" (list (texts (sorted_keys raw))) end)))

unfoldable pub parse_loaded : Codec → Loaded → Outcome ResponseEnvelope
unfolding envelope
parse_loaded codec bad_utf8 = raised (typed (protocol_error "IPC response is not valid UTF-8" end))
parse_loaded codec (bad_json position) =
    raised (typed (protocol_error "IPC response is not valid JSON" position))
parse_loaded codec (json (dict raw)) = envelope codec raw (get_entry "ok" raw)
parse_loaded codec (json raw) = raised (
    typed (
      protocol_error "IPC response must be a JSON object"
        (entry "response_type" (text (type_name raw)) end)))

-- `parse_response`
unfoldable pub parse_response : Codec → List ℕ → Outcome ResponseEnvelope
unfolding parse_loaded
parse_response codec bytes = parse_loaded codec (codec.load_json bytes)

-- `recv_response`
unfoldable pub recv_response : {W : Type 0} → Sockets W → Codec → Action W ResponseEnvelope
recv_response sockets codec = do bytes ← recv_frame sockets; lift (parse_response codec bytes)
