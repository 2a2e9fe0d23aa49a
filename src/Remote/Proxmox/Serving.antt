-- ===== src/Remote/Proxmox/Serving.antt =====
-- Execute of runtime/backend/proxmox: that it returns, and what it has done by then.
use toolexec.Base.{
  ℕ, suc, ℤ, pos, ◌≡◌, refl, ◌*◌, ◌^◌, Bool, true, false, Option, none, some, ◌⊎◌, inl, inr,
  if◌then◌else◌,
}
use toolexec.Errors.{Err, sentinel, runtime_not_configured, proxmox_not_configured}
use toolexec.Effects.{Result, ok, err, Context}
use toolexec.Runtime.Types.{ExecuteRequest, ExecuteResult, no_execution}
use toolexec.Runtime.Limits.{validate_request}
use toolexec.Remote
use toolexec.Remote.{RemoteClient}
use toolexec.Remote.Proxmox.{
  ApiClient, ProxmoxBackend, ensure_running, backend_info, remote_of, stop_if, run_service,
  unless_stopped, with_clients, unless_invalid, execute,
}
use toolexec.Remote.Proxmox.Starting.{Seen, asks, Ends, ensure_running-Seen}

module _ {W : Type 0} (wait : Context W → ℤ → W → Option Err × W)
    (with_timeout : ℤ → Context W → Context W) (b : ProxmoxBackend W) (now : W → ℕ)
    (background : Context W) (ctx : Context W) (req : ExecuteRequest W) where
  -- what starting the container comes to, for a call that begins in `w₀` with `fuel` polls
  abbrev pub starting : ApiClient W → ℕ → W → Option (Result (Unit {0}) × W)
  starting client fuel w₀ =
      if b.auto_start
      then ensure_running wait with_timeout b client ctx fuel w₀
      else some (ok tt, w₀)

  -- The configured service has executed the request from the world in which starting the container
  -- has ended, with the container seen to run there where it is started automatically; and the
  -- container has been stopped after where it is stopped automatically.
  pub record IsServed (fuel : ℕ) (w₀ : W) (out : ExecuteResult × Option Err) (w : W) : Type 0 where
    pub service : RemoteClient W
    pub serves : b.runtime_client ≡ some service
    pub client : ApiClient W
    pub configured : b.client ≡ some client
    pub valid : validate_request req ≡ none
    pub from : W
    pub started : starting client fuel w₀ ≡ some (ok tt, from)
    pub ready :
        (b.auto_start ≡ false)
        ⊎ ((ctx' : Context W) × (v : W) × (asks wait with_timeout b client ctx' v
              ≡ (ok "running", from)))
    pub answer : ExecuteResult
    pub until : W
    pub served :
        Remote.execute (remote_of wait with_timeout b service) now with_timeout ctx req from
        ≡ ((answer, out.1), until)
    pub result :
        out.0 ≡ record answer { backend = backend_info wait with_timeout b service req.profile }
    pub stopped : w ≡ (
        if b.auto_stop
        then (client.stop (with_timeout (pos (30 * 10 ^ 9)) background) b.node b.vmid until).1
        else until)

  -- The request has been refused with an error and nothing has been called, or the container could
  -- not be started, and the error says why.
  pub data IsRefused (fuel : ℕ) (w₀ : W) : Err → W → Type 0 where
    invalid : (e : Err) → validate_request req ≡ some e → IsRefused fuel w₀ e w₀
    no_service :
        validate_request req ≡ none
        → b.runtime_client ≡ none
        → IsRefused fuel w₀ (sentinel runtime_not_configured) w₀
    no_client :
        validate_request req ≡ none
        → b.client ≡ none
        → IsRefused fuel w₀ (sentinel proxmox_not_configured) w₀
    not_started :
        (client : ApiClient W) (e : Err) (w : W)
        → validate_request req ≡ none
        → b.client ≡ some client
        → starting client fuel w₀ ≡ some (err e, w)
        → IsRefused fuel w₀ e w

  -- There is an answer: a refusal with no result, or what the configured service has answered.
  abbrev pub Handled : ℕ → W → Option ((ExecuteResult × Option Err) × W) → Type 0
  Handled fuel w₀ none = ⊥
  Handled fuel w₀ (some (out, w)) =
      ((e : Err) × (out ≡ (no_execution, some e)) × IsRefused fuel w₀ e w) ⊎ IsServed fuel w₀ out w

  stop_if-cases :
      (stop : Bool) (client : ApiClient W) (w : W)
      → stop_if wait with_timeout b now background stop client w ≡ (
          if stop
          then (client.stop (with_timeout (pos (30 * 10 ^ 9)) background) b.node b.vmid w).1
          else w)
  unfolding stop_if
  stop_if-cases true client w = refl
  stop_if-cases false client w = refl

  module _ (fuel : ℕ) (w₀ : W) (client : ApiClient W) (configured : b.client ≡ some client)
      (c : RemoteClient W) (serves : b.runtime_client ≡ some c)
      (valid : validate_request req ≡ none) where
    -- the container is ready where it had to be started
    Ready : Option (Result (Unit {0}) × W) → Type 0
    Ready none = ⊥
    Ready (some (err e, w)) = Unit {0}
    Ready (some (ok _, w)) =
        (b.auto_start ≡ false)
        ⊎ ((ctx' : Context W) × (v : W) × (asks wait with_timeout b client ctx' v
              ≡ (ok "running", w)))

    Seen-Ready :
        (started : Option (Result (Unit {0}) × W))
        → Seen (asks wait with_timeout b client) started
        → Ready started
    unfolding Ready
    Seen-Ready none s = s
    Seen-Ready (some (err e, w)) s = tt
    Seen-Ready (some (ok u, w)) s = inr s

    unless_stopped-Handled :
        (started : Option (Result (Unit {0}) × W))
        → starting client fuel w₀ ≡ started
        → Ready started
        → Handled fuel w₀
            (unless_stopped wait with_timeout b now background client c ctx req started)
    unfolding unless_stopped run_service Ready
    unless_stopped-Handled none h s = s
    unless_stopped-Handled (some (err e, w)) h s =
        inl (e, refl, not_started client e w valid configured h)
    unless_stopped-Handled (some (ok u, w)) h s = inr (record {
      service = c;
      serves = serves;
      client = client;
      configured = configured;
      valid = valid;
      from = w;
      started = h;
      ready = s;
      answer = _;
      until = _;
      served = refl;
      result = refl;
      stopped = stop_if-cases b.auto_stop client _;
    })

  module _ (n : ℕ) (left : W → ℕ)
      (ends : (client : ApiClient W)
        → b.client ≡ some client
        → Ends wait with_timeout b client (with_timeout b.start_timeout ctx) n left) where
    started-Ready :
        (client : ApiClient W) (configured : b.client ≡ some client) (c : RemoteClient W)
        (serves : b.runtime_client ≡ some c) (valid : validate_request req ≡ none)
        (auto_start : Bool) (w : W)
        → b.auto_start ≡ auto_start
        → Ready (suc n) w client configured c serves valid (
            if auto_start
            then ensure_running wait with_timeout b client ctx (suc n) w
            else some (ok tt, w))
    unfolding Ready
    started-Ready client configured c serves valid true w on =
        Seen-Ready (suc n) w client configured c serves valid _
          (ensure_running-Seen wait with_timeout b client ctx n left (ends client configured) w)
    started-Ready client configured c serves valid false w off = inl off

    with_clients-Handled :
        (service : Option (RemoteClient W)) (client : Option (ApiClient W)) (w : W)
        → b.runtime_client ≡ service
        → b.client ≡ client
        → validate_request req ≡ none
        → Handled
            (suc n)
            w
            (with_clients wait with_timeout b now background service client ctx req (suc n) w)
    unfolding with_clients
    with_clients-Handled none client w serves configured valid =
        inl (sentinel runtime_not_configured, refl, no_service valid serves)
    with_clients-Handled (some c) none w serves configured valid =
        inl (sentinel proxmox_not_configured, refl, no_client valid configured)
    with_clients-Handled (some c) (some client) w serves configured valid =
        unless_stopped-Handled (suc n) w client configured c serves valid _ refl
          (started-Ready client configured c serves valid b.auto_start w refl)

    unless_invalid-Handled :
        (o : Option Err) (w : W)
        → validate_request req ≡ o
        → Handled (suc n) w (unless_invalid wait with_timeout b now background o ctx req (suc n) w)
    unfolding unless_invalid
    unless_invalid-Handled (some e) w bad = inl (e, refl, invalid e bad)
    unless_invalid-Handled none w valid =
        with_clients-Handled b.runtime_client b.client w refl refl valid

    -- Execute returns, with `n + 1` polls as fuel, where the deadline of the start leaves no more
    -- than `n` polls and each interval takes one of them. It refuses an invalid request, or one for
    -- which a client is missing, and then has called nothing; or it returns the error of starting
    -- the container, with no result and no stop; or the request was valid and the configured runtime
    -- service has executed it, from the world in which starting the container has ended: the
    -- container had just been seen to run, unless it is not started automatically; the result is
    -- that of the service with this backend's own information, the error is that of the service; and
    -- the last thing that was done is to stop the container, if it is stopped automatically.
    pub execute-Handled :
        (w : W) → Handled (suc n) w (execute wait with_timeout b now background ctx req (suc n) w)
    unfolding execute
    execute-Handled w = unless_invalid-Handled (validate_request req) w refl
