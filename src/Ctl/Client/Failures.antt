-- ===== src/Ctl/Client/Failures.antt =====
-- When a method of the client ends in a value or in a ControllerClientError.
use pktlab.Base.{ℕ, String, Option}
use pktlab.Error.{Value, null, flag, int, float, text, list, dict}
use pktlab.Ctl.{
  Fetched, fetched, client_error, bad_value, escaped, and_fetch, Body, document, not_json,
  unreadable, Exchange, received, status_error, http_error, broken, Checked, matches, mismatch,
  Services,
}
use pktlab.Ctl.Client.{
  ControllerClient, read_payload, read_exchange, read_model, request_json, typed_request,
}

-- A value or a ControllerClientError.
abbrev pub Settled : {A : Type 0} → Fetched A → Type 0
Settled (fetched a) = Unit
Settled (client_error m) = Unit
Settled _ = ⊥

-- An exchange that raises no exception but httpx's and the JSON decoder's.
abbrev pub IsHttp : Exchange → Type 0
IsHttp (received (unreadable m)) = ⊥
IsHttp (broken m) = ⊥
IsHttp _ = Unit

read_payload-Settled : (body : Body) → IsHttp (received body) → Settled (read_payload body)
unfolding read_payload
read_payload-Settled (document null) h = tt
read_payload-Settled (document (flag b)) h = tt
read_payload-Settled (document (int n)) h = tt
read_payload-Settled (document (float f)) h = tt
read_payload-Settled (document (text s)) h = tt
read_payload-Settled (document (list vs)) h = tt
read_payload-Settled (document (dict c)) h = tt
read_payload-Settled not_json h = tt
read_payload-Settled (unreadable m) h = absurd h

read_exchange-Settled :
    (value_text : Value → String) (path : String) (x : Exchange)
    → IsHttp x
    → Settled (read_exchange value_text path x)
unfolding read_exchange
read_exchange-Settled value_text path (received body) h = read_payload-Settled body h
read_exchange-Settled value_text path (status_error code body) h = tt
read_exchange-Settled value_text path (http_error m) h = tt
read_exchange-Settled value_text path (broken m) h = absurd h

read_model-Settled : {M : Type 0} (what : String) (c : Checked M) → Settled (read_model what c)
unfolding read_model
read_model-Settled what (matches m) = tt
read_model-Settled what (mismatch message) = tt

and_fetch-Settled :
    {A B : Type 0} (a : Fetched A) (f : A → Fetched B)
    → Settled a
    → ((x : A) → Settled (f x))
    → Settled (and_fetch a f)
and_fetch-Settled (fetched a) f h k = k a
and_fetch-Settled (client_error m) f h k = tt
and_fetch-Settled (bad_value m) f h k = absurd h
and_fetch-Settled (escaped m) f h k = absurd h

-- Every request at the URL is such an exchange; a URL that httpx refuses as invalid has none.
abbrev pub AreHttp : {W : Type 0} → Services W → String → Type 0
AreHttp {W = W} services url =
    (timeout : ℕ) (method path : String) (body : Option Value) (w : W)
    → IsHttp (services.request url timeout method path body w).0

module _ {W : Type 0} (services : Services W) (client : ControllerClient)
    (http : AreHttp services client.base_url) where
  pub typed_request-Settled :
      {M : Type 0} (method path : String) (json_body : Option Value) (what : String)
      (check : Value → Checked M) (w : W)
      → Settled (typed_request services client method path json_body what check w).0
  unfolding request_json
  typed_request-Settled method path json_body what check w =
      and_fetch-Settled
        (read_exchange services.value_text path
          (services.request client.base_url client.timeout_seconds method path json_body w).0)
        (λ v. read_model what (check v))
        (read_exchange-Settled services.value_text path
          (services.request client.base_url client.timeout_seconds method path json_body w).0
          (http client.timeout_seconds method path json_body w))
        (λ v. read_model-Settled what (check v))
