-- ===== src/Alerts/Acknowledge/Heartbeat.antt =====
-- The heartbeats of the overlay (apps/web/src/hooks/use-alert-overlay.ts).
use streambrew.Base.{
  ℕ, min, ◌≡◌, Bool, true, not, ◌&&◌, List, [], ◌∷◌, ◌++◌, map, arith, All, if◌then◌else◌,
}
use streambrew.Alerts.Acknowledge.{
  is_permanent_alert_heartbeat_error, Beat, permanent, is_delivered, maintain_alert_heartbeat,
}

-- The loop is wanted throughout, and the heartbeat does not fail for good.
abbrev pub goes_on : Beat → Bool
goes_on b =
    b.wanted_before
    && (b.wanted_after && (b.wanted_in_delay && not (is_permanent_alert_heartbeat_error b.result)))

-- The loop goes on through heartbeats that are delivered, after which it waits for the interval, and
-- through failures that may pass, after which it waits for a second, or for the interval if that is
-- shorter. At the first failure that is permanent it ends as failed, with no further heartbeat.
pub maintain_alert_heartbeat_lem :
    (interval_ms : ℕ) (bs : List Beat) (b : Beat) (cs : List Beat)
    → All (λ x. goes_on x ≡ true) bs
    → b.wanted_before ≡ true
    → b.wanted_after ≡ true
    → is_permanent_alert_heartbeat_error b.result ≡ true
    → maintain_alert_heartbeat interval_ms (bs ++ b ∷ cs) ≡ (
      permanent,
      map (λ x. if is_delivered x.result then interval_ms else min 1_000 interval_ms) bs,
    )
unfolding maintain_alert_heartbeat
maintain_alert_heartbeat_lem i [] b cs h w v p = ground (arith, w, v, p)
maintain_alert_heartbeat_lem i (x ∷ bs) b cs h w v p =
    let ih = maintain_alert_heartbeat_lem i bs b cs h.1 w v p in ground (arith, h.0, ih)
