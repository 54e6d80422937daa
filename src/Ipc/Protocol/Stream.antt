-- ===== src/Ipc/Protocol/Stream.antt =====
-- Reading from a socket: `_read_exact` over any way in which the kernel cuts a byte stream into
-- chunks.
use mathlib.Core.List.{append_assoc, append-nil}
use mathlib.Core.Path.{subst}
use pktlab.Base.{
  ℕ, zero, suc, ◌+◌, ◌-◌, ◌≤◌, ◌<◌, ◌≡◌, refl, sym, ap, true, false, List, [], ◌∷◌, ◌++◌, arith,
  Bool-cases, inl, inr, ◌==◌, if◌then◌else◌, is_nil, length, length-append,
}
use pktlab.Effect.{Outcome, ok, raised, continue}
use pktlab.Ipc.{Sockets}
use pktlab.Ipc.Protocol.{read_loop, read_exact, eof_error}

-- What a chunk of at most `n` bytes and the bytes still to come are, of a stream that held `before`.
abbrev pub Chunk : {W : Type 0} → (W → List ℕ) → ℕ → List ℕ → Outcome (List ℕ) × W → Type 0
Chunk pending n before (ok chunk, w) =
    (before ≡ chunk ++ pending w) × (length chunk ≤ n) × (is_nil chunk ≡ true → before ≡ [])
Chunk pending n before (raised e, w) = ⊥

-- `recv` on a stream socket, while nothing fails: some of the bytes that were sent, in order, no
-- more than were asked for, and none only at the end of the stream.
pub record IsStream {W : Type 0} (sockets : Sockets W) (pending : W → List ℕ) : Type 0 where
  pub delivers : (n : ℕ) (w : W) → 0 < n → Chunk pending n (pending w) (sockets.recv n w)

module _ {W : Type 0} (sockets : Sockets W) (pending : W → List ℕ)
    (stream : IsStream sockets pending) where
  -- The bytes that a read has returned, and those that it has left on the stream.
  abbrev pub Reads : List ℕ → List ℕ → Outcome (List ℕ) × W → Type 0
  Reads bytes rest (ok got, w) = (got ≡ bytes) × (pending w ≡ rest)
  Reads bytes rest (raised e, w) = ⊥

split_prefix {ℓ} :
    {A : Type ℓ} (bytes rest chunk tail : List A)
    → bytes ++ rest ≡ chunk ++ tail
    → length chunk ≤ length bytes
    → (left : List A) × (bytes ≡ chunk ++ left) × (tail ≡ left ++ rest)
split_prefix bytes rest [] tail e le = (bytes, refl, sym e)
split_prefix [] rest (c ∷ chunk) tail e le = absurd (omega arith)
split_prefix (b ∷ bytes) rest (c ∷ chunk) tail e le =
    let (left, p, q) = split_prefix bytes rest chunk tail (cc e) (omega arith) in
    (left, cc (p, e), q)

module _ {W : Type 0} (sockets : Sockets W) (pending : W → List ℕ)
    (stream : IsStream sockets pending) where
  -- One round, given what the later rounds do.
  round-Reads :
      (fuel size remaining : ℕ) (chunks bytes rest : List ℕ)
      → ((cs left : List ℕ) (w : W)
          → length left ≤ fuel
          → pending w ≡ left ++ rest
          → Reads sockets pending stream
              (cs ++ left)
              rest
              (read_loop sockets fuel size (length left) cs w))
      → 0 < remaining
      → remaining ≤ suc fuel
      → length bytes ≡ remaining
      → (r : Outcome (List ℕ) × W) → Chunk pending remaining (bytes ++ rest) r
      → Reads sockets pending stream (chunks ++ bytes) rest (
          continue
            (λ chunk.
              if is_nil chunk
              then (λ w. (raised (eof_error size remaining), w))
              else read_loop sockets fuel size (remaining - length chunk) (chunks ++ chunk))
            r)
  round-Reads fuel size remaining chunks bytes rest later pos le len (raised e, w) h = absurd h
  round-Reads fuel size remaining chunks bytes rest later pos le len (ok [], w) h =
      absurd (omega (arith, ap length (h.2 refl), length-append bytes rest))
  round-Reads fuel size remaining chunks bytes rest later pos le len (ok (c ∷ chunk), w) h =
      let (left, p, q) = split_prefix bytes rest (c ∷ chunk) (pending w) h.0 (omega arith) in
      let n : remaining - length (c ∷ chunk) ≡ length left =
        omega (arith, ap length p, length-append (c ∷ chunk) left) in
      rw (n, p, ← append_assoc chunks (c ∷ chunk) left)
        (later (chunks ++ c ∷ chunk) left w (omega arith) q)

  loop-Reads :
      (fuel size : ℕ) (chunks bytes rest : List ℕ) (w : W)
      → length bytes ≤ fuel
      → pending w ≡ bytes ++ rest
      → Reads sockets pending stream
          (chunks ++ bytes)
          rest
          (read_loop sockets fuel size (length bytes) chunks w)
  unfolding read_loop
  loop-Reads zero size chunks [] rest w le e = (rw append-nil, e)
  loop-Reads (suc fuel) size chunks [] rest w le e = (rw append-nil, e)
  loop-Reads zero size chunks (b ∷ bytes) rest w le e = absurd (omega arith)
  loop-Reads (suc fuel) size chunks (b ∷ bytes) rest w le e =
      let more : (suc (length bytes) == 0) ≡ false = ground arith in
      rw more (
        round-Reads fuel size (length (b ∷ bytes)) chunks (b ∷ bytes) rest
          (λ cs left w' le' e'. loop-Reads fuel size cs left rest w' le' e') (omega arith)
          (omega arith) refl (sockets.recv (length (b ∷ bytes)) w)
          (rw e at (stream.delivers (length (b ∷ bytes)) w (omega arith))))

  -- On a socket that does not fail, and however the stream is cut into chunks, a read of as many
  -- bytes as `bytes` has returns them and leaves the rest: the loop ends, and neither loses nor
  -- repeats a byte.
  pub read_exact-Reads :
      (bytes rest : List ℕ) (w : W)
      → pending w ≡ bytes ++ rest
      → Reads sockets pending stream bytes rest (read_exact sockets (length bytes) w)
  unfolding read_exact
  read_exact-Reads bytes rest w e =
      loop-Reads (length bytes) (length bytes) [] bytes rest w (omega arith) e

  -- The stream ended early, with so many bytes missing.
  abbrev pub Breaks : ℕ → ℕ → Outcome (List ℕ) × W → Type 0
  Breaks size missing (ok got, w) = ⊥
  Breaks size missing (raised e, w) = e ≡ eof_error size missing

  round-Breaks :
      (fuel size missing : ℕ) (chunks bytes : List ℕ)
      → ((cs left : List ℕ) (w : W)
          → length left + missing ≤ fuel
          → pending w ≡ left
          → Breaks size missing (read_loop sockets fuel size (length left + missing) cs w))
      → 0 < missing
      → length bytes + missing ≤ suc fuel
      → (r : Outcome (List ℕ) × W) → Chunk pending (length bytes + missing) bytes r
      → Breaks size missing (
          continue
            (λ chunk.
              if is_nil chunk
              then (λ w. (raised (eof_error size (length bytes + missing)), w))
              else read_loop sockets fuel size
                  (length bytes + missing - length chunk)
                  (chunks ++ chunk))
            r)
  round-Breaks fuel size missing chunks bytes later pos le (raised e, w) h = absurd h
  round-Breaks fuel size missing chunks bytes later pos le (ok [], w) h =
      let n : length bytes + missing ≡ missing = omega (arith, ap length (h.2 refl)) in
      ap (eof_error size) n
  round-Breaks fuel size missing chunks bytes later pos le (ok (c ∷ chunk), w) h =
      let len = ap length h.0 in
      let len' = length-append (c ∷ chunk) (pending w) in
      let n : length bytes + missing - length (c ∷ chunk) ≡ length (pending w) + missing =
        omega (arith, len, len') in
      rw n (later (chunks ++ c ∷ chunk) (pending w) w (omega (arith, len, len')) refl)

  loop-Breaks :
      (fuel size missing : ℕ) (chunks bytes : List ℕ) (w : W)
      → 0 < missing
      → length bytes + missing ≤ fuel
      → pending w ≡ bytes
      → Breaks size missing (read_loop sockets fuel size (length bytes + missing) chunks w)
  unfolding read_loop
  loop-Breaks zero size missing chunks bytes w pos le e = absurd (omega arith)
  loop-Breaks (suc fuel) size missing chunks bytes w pos le e =
      elim (Bool-cases (length bytes + missing == 0)) [
        | inl z ↦ absurd (ground (arith, z))
        | inr z ↦ rw z (
            round-Breaks fuel size missing chunks bytes
              (λ cs left w' le' e'. loop-Breaks fuel size missing cs left w' pos le' e') pos le
              (sockets.recv (length bytes + missing) w)
              (rw e at (stream.delivers (length bytes + missing) w (omega arith))))
      ]

  -- If the stream of a socket that does not fail ends before `size` bytes, the read raises the
  -- protocol error that says how many are missing; it never returns a short result.
  pub read_exact-Breaks :
      (size : ℕ) (w : W)
      → length (pending w) < size
      → Breaks size (size - length (pending w)) (read_exact sockets size w)
  unfolding read_exact
  read_exact-Breaks size w lt =
      let n : length (pending w) + (size - length (pending w)) ≡ size = omega arith in
      subst (λ k. Breaks size (size - length (pending w)) (read_loop sockets size size k [] w)) n
        (loop-Breaks size size (size - length (pending w)) [] (pending w) w (omega arith)
          (omega arith) refl)
