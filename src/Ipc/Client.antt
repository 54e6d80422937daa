-- ===== src/Ipc/Client.antt =====
-- The typed Unix-socket client: ctrld/pktlab_ctrld/dpdk_client/client.py. A client is its socket path
-- and its timeout, in ticks of the clock.
pub mod Calls
use pktlab.Base.{ℕ, String, Bool, true, false, not, Option, none, some, List, str_eq, if◌then◌else◌}
use pktlab.Error.{
  Value, Context, end, entry, text, num, null, Exn, typed, invalid_model, file_not_found,
  connection_refused, socket_timeout, os_error, transport_error, protocol_error,
}
use pktlab.Effect.{Outcome, ok, raised, Action, pure, raise, lift, handle, catch, ◌>>=◌, ◌>>◌}
use pktlab.Ipc.{
  RequestEnvelope, ResponseEnvelope, success, failure, DatapathCommand, ping, get_version,
  get_health, get_ports, get_stats, reset_stats, pause_datapath, resume_datapath, command_name,
  CommandResult, succeeded, failed, Validated, valid, invalid, Codec, Sockets, response_id,
  AckPayload, VersionPayload, HealthPayload, PortsPayload, StatsPayload,
}
use pktlab.Ipc.Protocol.{send_request, recv_response}

pub record DpdkClient : Type 0 where
  pub socket_path : String
  pub timeout_seconds : ℕ

abbrev optional_number : Option ℕ → Value
optional_number none = null
optional_number (some n) = num n

-- The `except` clauses of `_exchange`.
unfoldable pub transport_failure : DpdkClient → RequestEnvelope → Exn → Exn
transport_failure client request file_not_found = typed (
    transport_error "datapath IPC socket was not found" (
      entry "socket_path" (text client.socket_path)
        (entry "cmd" (text (command_name request.cmd)) end)))
transport_failure client request connection_refused = typed (
    transport_error "datapath IPC socket refused the connection" (
      entry "socket_path" (text client.socket_path)
        (entry "cmd" (text (command_name request.cmd)) end)))
transport_failure client request socket_timeout = typed (
    transport_error "datapath IPC request timed out" (
      entry "socket_path" (text client.socket_path) (
        entry "cmd" (text (command_name request.cmd))
          (entry "timeout_seconds" (num client.timeout_seconds) end))))
transport_failure client request (os_error code) = typed (
    transport_error "datapath IPC transport failed" (
      entry "socket_path" (text client.socket_path)
        (entry "cmd" (text (command_name request.cmd)) (entry "errno" (optional_number code) end))))
transport_failure client request e = e

module _ {W : Type 0} (sockets : Sockets W) (codec : Codec) where
  -- Leaving the `with` block closes the socket, also after an exception.
  abbrev closing : {A : Type 0} → Action W A → Action W A
  closing m w = let (r, w') = m w in (r, sockets.close w')

  abbrev pub after_connect : RequestEnvelope → Action W ResponseEnvelope
  after_connect request = do send_request sockets codec request; recv_response sockets codec

  -- `_exchange`
  unfoldable pub exchange : DpdkClient → RequestEnvelope → Action W ResponseEnvelope
  exchange client request =
      catch
        (closing
          (do sockets.connect client.socket_path client.timeout_seconds; after_connect request))
        (λ e. raise (transport_failure client request e))

  -- The part of `_typed_call` below the exchange.
  unfoldable pub read_response :
      {P : Type 0}
      → (Value → Validated P)
      → RequestEnvelope
      → ResponseEnvelope
      → Outcome (CommandResult P)
  read_response validate request response =
      if not (str_eq (response_id response) request.id)
      then raised (
          typed (
            protocol_error "IPC response id did not match the request id" (
              entry "request_id" (text request.id) (
                entry "response_id" (text (response_id response))
                  (entry "cmd" (text (command_name request.cmd)) end)))))
      else elim response [
        | failure id error ↦ ok (failed request.id error)
        | success id payload ↦ elim (validate payload) [
          | valid p ↦ ok (succeeded request.id p)
          | invalid errors ↦ raised (
              typed (
                protocol_error "IPC success payload failed validation" (
                  entry "request_id" (text request.id)
                    (entry "cmd" (text (command_name request.cmd)) (entry "errors" errors end)))))
        ]
      ]

  -- `_typed_call`
  unfoldable pub typed_call :
      {P : Type 0}
      → (Value → Validated P)
      → DpdkClient
      → RequestEnvelope
      → Action W (CommandResult P)
  typed_call validate client request = do
    response ← exchange client request
    lift (read_response validate request response)

  abbrev new_id : Action W String
  new_id w = let (id, w') = sockets.request_id w in (ok id, w')

  -- The request models refuse an id that is empty or does not match the pattern.
  unfoldable pub call :
      {P : Type 0}
      → (Value → Validated P)
      → DatapathCommand
      → DpdkClient
      → Action W (CommandResult P)
  call validate cmd client = do
    id ← new_id
    if codec.valid_id id
        then typed_call validate client (record { id = id; cmd = cmd })
        else raise (invalid_model "id")

  -- The methods of `DpdkClient`, one for each command.
  abbrev pub client_ping : DpdkClient → Action W (CommandResult AckPayload)
  client_ping = call codec.validate_ack ping

  abbrev pub client_get_version : DpdkClient → Action W (CommandResult VersionPayload)
  client_get_version = call codec.validate_version get_version

  abbrev pub client_get_health : DpdkClient → Action W (CommandResult HealthPayload)
  client_get_health = call codec.validate_health get_health

  abbrev pub client_get_ports : DpdkClient → Action W (CommandResult PortsPayload)
  client_get_ports = call codec.validate_ports get_ports

  abbrev pub client_get_stats : DpdkClient → Action W (CommandResult StatsPayload)
  client_get_stats = call codec.validate_stats get_stats

  abbrev pub client_reset_stats : DpdkClient → Action W (CommandResult AckPayload)
  client_reset_stats = call codec.validate_ack reset_stats

  abbrev pub client_pause_datapath : DpdkClient → Action W (CommandResult AckPayload)
  client_pause_datapath = call codec.validate_ack pause_datapath

  abbrev pub client_resume_datapath : DpdkClient → Action W (CommandResult AckPayload)
  client_resume_datapath = call codec.validate_ack resume_datapath
