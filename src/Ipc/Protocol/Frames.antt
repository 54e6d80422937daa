-- ===== src/Ipc/Protocol/Frames.antt =====
-- Whole frames: what `encode_request` writes is what `recv_frame` reads.
use pktlab.Base.{
  ℕ, ◌<◌, ◌≡◌, refl, false, ◌||◌, ◌&&◌, ltb, List, ◌++◌, arith, ◌==◌, leb, if◌then◌else◌, length,
}
use mathlib.Core.List.{append_assoc}
use pktlab.Error.{typed, protocol_error}
use pktlab.Effect.{Outcome, ok, raised, continue}
use pktlab.Ipc.{Sockets}
use pktlab.Ipc.Protocol.{pack, unpack, frame_payload, read_exact, recv_frame, length_context}
use pktlab.Ipc.Protocol.Stream.{IsStream, Reads, read_exact-Reads}

-- The header is four bytes, and a length below 2 ^ 32 survives packing.
unpack-pack : (n : ℕ) → n < 4294967296 → (unpack (pack n) ≡ n) × (length (pack n) ≡ 4)
unfolding unpack pack
unpack-pack n h = (omega arith, refl)

-- A payload is framed exactly when it has between 1 and 16383 bytes, and then by its length; any
-- other one is refused with its size.
pub frame_payload_exact :
    (payload : List ℕ)
    → frame_payload payload ≡ (
        if leb 1 (length payload) && ltb (length payload) 16384
        then ok (pack (length payload) ++ payload)
        else raised (
            typed (
              protocol_error "request payload exceeds the supported IPC frame size"
                (length_context (length payload)))))
unfolding frame_payload
frame_payload_exact payload = ground arith

framed_parts :
    (payload frame : List ℕ)
    → frame_payload payload ≡ ok frame
    → (0 < length payload) × (length payload < 16384) × (frame ≡ pack (length payload) ++ payload)
unfolding frame_payload
framed_parts payload frame h = ground arith

module _ {W : Type 0} (sockets : Sockets W) (pending : W → List ℕ)
    (stream : IsStream sockets pending) where
  header-then :
      (payload rest : List ℕ)
      → 0 < length payload
      → length payload < 16384
      → (r : Outcome (List ℕ) × W)
      → Reads sockets pending stream (pack (length payload)) (payload ++ rest) r
      → Reads sockets pending stream payload rest (
          continue
            (λ header.
              if unpack header == 0 || leb 16384 (unpack header)
              then (λ w. (
                raised (
                    typed (
                      protocol_error "received an invalid IPC frame length"
                        (length_context (unpack header)))),
                w,
              ))
              else read_exact sockets (unpack header))
            r)
  header-then payload rest pos lt (raised e, w) h = absurd h
  header-then payload rest pos lt (ok header, w) h =
      let n : unpack header ≡ length payload =
        rw h.0 (unpack-pack (length payload) (omega arith)).0 in
      let fits : (length payload == 0 || leb 16384 (length payload)) ≡ false = ground arith in
      rw (n, fits) (read_exact-Reads sockets pending stream payload rest w h.1)

  -- On a socket that does not fail, a payload of a legal size that was framed onto the stream is
  -- what `recv_frame` returns, however the stream is cut into chunks, and the bytes that follow the
  -- frame stay on the stream.
  pub recv_frame-frame_payload :
      (payload frame rest : List ℕ) (w : W)
      → frame_payload payload ≡ ok frame
      → pending w ≡ frame ++ rest
      → Reads sockets pending stream payload rest (recv_frame sockets w)
  unfolding recv_frame pack
  recv_frame-frame_payload payload frame rest w framed e =
      let size = framed_parts payload frame framed in
      let whole : pending w ≡ pack (length payload) ++ (payload ++ rest) =
        cc (e, size.2, append_assoc (pack (length payload)) payload rest) in
      header-then payload rest size.0 size.1 (read_exact sockets 4 w)
        (read_exact-Reads sockets pending stream (pack (length payload)) (payload ++ rest) w whole)
