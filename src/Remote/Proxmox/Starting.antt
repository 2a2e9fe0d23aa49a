-- ===== src/Remote/Proxmox/Starting.antt =====
-- Starting the container of runtime/backend/proxmox: that it ends, and what it has seen by then.
use toolexec.Base.{
  ℕ, zero, suc, ◌≤◌, ◌<◌, ℤ, String, ◌≡◌, refl, Option, none, some, str_eq, eq_iff, arith, inl, inr,
  Bool-cases, not, is_empty, ◌||◌, ap, ◌∙◌,
}
use toolexec.Errors.{Err}
use toolexec.Effects.{Result, ok, err, Context}
use toolexec.Remote.Proxmox.{
  is_zero, ApiClient, ProxmoxBackend, waited, polled, poll, started, first_status, ensure_running,
}

-- An answer was given, and if it is that the container runs, a poll has just said so.
abbrev pub Seen :
    {W : Type 0} → (Context W → W → Result String × W) → Option (Result (Unit {0}) × W) → Type 0
Seen asks none = ⊥
Seen asks (some (err e, w)) = Unit {0}
Seen {W} asks (some (ok _, w)) = (ctx : Context W) × (v : W) × (asks ctx v ≡ (ok "running", w))

module _ {W : Type 0} (wait : Context W → ℤ → W → Option Err × W)
    (with_timeout : ℤ → Context W → Context W) (b : ProxmoxBackend W) (client : ApiClient W) where
  abbrev pub asks : Context W → W → Result String × W
  asks ctx w = client.status ctx b.node b.vmid w

  -- The context ends: `left` bounds the polls that its deadline leaves, a status does not give time
  -- back, and an interval that passes takes some away.
  pub record Ends (ctx : Context W) (n : ℕ) (left : W → ℕ) : Type 0 where
    pub bounded : (w : W) → left w ≤ n
    pub status : (w : W) → left (asks ctx w).1 ≤ left w
    pub interval : (w v : W) → wait ctx b.poll_interval w ≡ (none, v) → left v < left w

  module _ (ctx : Context W) (n : ℕ) (left : W → ℕ) (ends : Ends ctx n left) where
    -- a status leaves no more time than there was
    kept : (w v : W) (r : Result String) → asks ctx w ≡ (r, v) → left v ≤ left w
    kept w v r h = let later : (asks ctx w).1 ≡ v = ap (λ q. q.1) h in rw later at (ends.status w)

    waited-Seen :
        (more : W → Option (Result (Unit {0}) × W)) (k : ℕ) (v : W) (q : Option Err × W)
        → wait ctx b.poll_interval v ≡ q
        → left v ≤ k
        → ((u : W) → left u < k → Seen asks (more u))
        → Seen asks (waited wait with_timeout b more q)
    unfolding waited
    waited-Seen more k v (some e, u) h le rec = tt
    waited-Seen more k v (none, u) h le rec = rec u (omega (arith, ends.interval v u h))

    polled-Seen :
        (more : W → Option (Result (Unit {0}) × W)) (w : W) (q : Result String × W)
        → asks ctx w ≡ q
        → ((u : W) → left u < left w → Seen asks (more u))
        → Seen asks (polled wait with_timeout b more ctx q)
    unfolding polled
    polled-Seen more w (err e, v) h rec = tt
    polled-Seen more w (ok s, v) h rec = elim (Bool-cases (str_eq s "running")) [
      | inl running ↦ rw running (ctx, w, h ∙ rw ((eq_iff s "running").0 running) refl)
      | inr other ↦ rw other (
          waited-Seen more (left w) v (wait ctx b.poll_interval v) refl
            (omega (arith, kept w v (ok s) h)) rec)
    ]

    poll-Seen :
        (fuel : ℕ) (w : W) → left w < fuel → Seen asks (poll wait with_timeout b client ctx fuel w)
    unfolding poll
    poll-Seen zero w h = absurd (omega arith)
    poll-Seen (suc fuel) w h =
        polled-Seen (poll wait with_timeout b client ctx fuel) w (asks ctx w) refl
          (λ u lt. poll-Seen fuel u (omega arith))

  module _ (ctx : Context W) (n : ℕ) (left : W → ℕ)
      (ends : Ends (with_timeout b.start_timeout ctx) n left) where
    started-Seen :
        (r : Result (Unit {0}) × W) → Seen asks (started wait with_timeout b client ctx (suc n) r)
    unfolding started
    started-Seen (err e, w) = tt
    started-Seen (ok _, w) =
        poll-Seen (with_timeout b.start_timeout ctx) n left ends (suc n) w
          (omega (arith, ends.bounded w))

    first_status-Seen :
        (w : W) (q : Result String × W)
        → asks ctx w ≡ q
        → Seen asks (first_status wait with_timeout b client ctx (suc n) q)
    unfolding first_status
    first_status-Seen w (err e, v) h = tt
    first_status-Seen w (ok s, v) h = elim (Bool-cases (str_eq s "running")) [
      | inl running ↦ rw running (ctx, w, h ∙ rw ((eq_iff s "running").0 running) refl)
      | inr other ↦ elim (Bool-cases (not b.auto_start)) [
        | inl refused ↦ rw (other, refused) tt
        | inr allowed ↦ rw (other, allowed) (started-Seen (client.start ctx b.node b.vmid _))
      ]
    ]

    -- Where the deadline of the start leaves no more than `n` polls, and each interval takes one of
    -- them, starting the container ends with `n + 1` polls as fuel; if it succeeds, the last thing
    -- that it did was to ask for the status of the container and to be told that it is running.
    pub ensure_running-Seen :
        (w : W) → Seen asks (ensure_running wait with_timeout b client ctx (suc n) w)
    unfolding ensure_running
    ensure_running-Seen w = elim (Bool-cases (is_empty b.node || is_zero b.vmid)) [
      | inl unset ↦ rw unset tt
      | inr named ↦ rw named (first_status-Seen w (asks ctx w) refl)
    ]
