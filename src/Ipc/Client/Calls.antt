-- ===== src/Ipc/Client/Calls.antt =====
-- What a call of the datapath client returns or raises, whatever the socket does.
use pktlab.Base.{String, ◌≡◌, refl, ◌⊎◌, inl, inr, Bool, true, false, none, eq_iff, arith}
use pktlab.Error.{Value, Exn, file_not_found, connection_refused, socket_timeout, os_error}
use pktlab.Effect.{Outcome, ok, raised, raise, lift, handle, continue}
use pktlab.Effect.Triple.{Post}
use pktlab.Ipc.{
  RequestEnvelope, ResponseEnvelope, success, failure, CommandResult, DatapathErrorModel, succeeded,
  failed, Validated, valid, invalid, Codec, Sockets, is_ok, unwrap, response_id,
}
use pktlab.Ipc.Client.{
  DpdkClient, transport_failure, after_connect, exchange, read_response, typed_call,
}

-- The exceptions of the operating system, which callers of the client do not handle.
abbrev pub is_os_level : Exn → Bool
is_os_level file_not_found = true
is_os_level connection_refused = true
is_os_level socket_timeout = true
is_os_level (os_error _) = true
is_os_level _ = false

transport_failure_typed :
    (c : DpdkClient) (q : RequestEnvelope) (e : Exn) → is_os_level (transport_failure c q e) ≡ false
unfolding transport_failure
transport_failure_typed c q file_not_found = refl
transport_failure_typed c q _ = refl

-- A result of a call: it has the id of the request, and either a payload, as `unwrap` needs, or an
-- error, as `ok` tells.
pub record IsAnswer {P : Type 0} (id : String) (r : CommandResult P) : Type 0 where
  pub same_id : r.request_id ≡ id
  pub ok_unwraps : is_ok r ≡ true → (p : P) × (unwrap r ≡ ok p)
  pub failed_has_error : is_ok r ≡ false → r.payload ≡ none

succeeded-IsAnswer : {P : Type 0} (id : String) (p : P) → IsAnswer id (succeeded id p)
succeeded-IsAnswer id p = record {
  same_id = refl;
  ok_unwraps = λ o. (p, refl);
  failed_has_error = λ o. cc;
}

failed-IsAnswer :
    {P : Type 0} (id : String) (e : DatapathErrorModel) → IsAnswer {P = P} id (failed id e)
failed-IsAnswer id e = record { same_id = refl; ok_unwraps = λ o. cc; failed_has_error = λ o. refl }

Validated-cases :
    {A : Type 0} (v : Validated A)
    → ((a : A) × (v ≡ valid a)) ⊎ ((errors : Value) × (v ≡ invalid errors))
Validated-cases (valid a) = inl (a, refl)
Validated-cases (invalid errors) = inr (errors, refl)

module _ {W : Type 0} (sockets : Sockets W) (codec : Codec) where
  -- The last thing that was done to the world was to close the socket.
  abbrev pub ClosedLast : W → Type 0
  ClosedLast w' = (w : W) × (w' ≡ sockets.close w)

  -- A response, or an exception that is not of the operating system, after the socket was closed.
  abbrev pub IsSettled : Outcome ResponseEnvelope × W → Type 0
  IsSettled r = Post (λ _ w'. ClosedLast w') (λ e w'. ClosedLast w' × (is_os_level e ≡ false)) r

  settle :
      (c : DpdkClient) (q : RequestEnvelope) (r : Outcome ResponseEnvelope × W)
      → IsSettled (handle (λ e. raise (transport_failure c q e)) (r.0, sockets.close r.1))
  settle c q (ok a, w) = (w, refl)
  settle c q (raised x, w) = ((w, refl), transport_failure_typed c q x)

  -- However an exchange ends, the socket has been closed last, and no exception of the operating
  -- system leaves it.
  pub exchange_settles :
      (c : DpdkClient) (q : RequestEnvelope) (w : W) → IsSettled (exchange sockets codec c q w)
  unfolding exchange
  exchange_settles c q w = settle c q (
      continue (λ _. after_connect sockets codec q)
        (sockets.connect c.socket_path c.timeout_seconds w))

  read_response-IsAnswer :
      {P : Type 0} (validate : Value → Validated P) (q : RequestEnvelope) (a : ResponseEnvelope)
      (r : CommandResult P)
      → read_response sockets codec validate q a ≡ ok r
      → (response_id a ≡ q.id) × IsAnswer q.id r
  unfolding read_response
  read_response-IsAnswer validate q (failure id error) r h =
      let e : r ≡ failed q.id error = ground arith in
      (ground (arith, eq_iff id q.id), rw e (failed-IsAnswer q.id error))
  read_response-IsAnswer validate q (success id payload) r h =
      elim (Validated-cases (validate payload)) [
        | inl (p, v) ↦
            let e : r ≡ succeeded q.id p = ground (arith, v) in
            (ground (arith, eq_iff id q.id), rw e (succeeded-IsAnswer q.id p))
        | inr (errors, v) ↦ absurd (ground (arith, v))
      ]

  -- A call that returns has used an answer with the id of the request that it sent, and its result
  -- is a payload or a daemon error, never both and never neither.
  pub typed_call-IsAnswer :
      {P : Type 0} (validate : Value → Validated P) (c : DpdkClient) (q : RequestEnvelope) (w : W)
      (r : CommandResult P)
      → (typed_call sockets codec validate c q w).0 ≡ ok r
      → (a : ResponseEnvelope) × ((exchange sockets codec c q w).0 ≡ ok a)
        × (response_id a ≡ q.id)
        × IsAnswer q.id r
  unfolding typed_call
  typed_call-IsAnswer {P} validate c q w r h = go (exchange sockets codec c q w) h
    where
      go :
          (x : Outcome ResponseEnvelope × W)
          → (continue (λ a. lift (read_response sockets codec validate q a)) x).0 ≡ ok r
          → (a : ResponseEnvelope) × (x.0 ≡ ok a) × (response_id a ≡ q.id) × IsAnswer q.id r
      go (ok a, w') e =
          let both = read_response-IsAnswer validate q a r e in (a, refl, both.0, both.1)
      go (raised x, w') e = cc
